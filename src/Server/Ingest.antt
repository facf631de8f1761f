-- ===== src/Server/Ingest.antt =====
-- The events that a sequence of posts leaves, against the first posts of their ids.
use mathlib.Core.Bool.{◌&&◌}
use computer_vision.Common.{
  ◌≡◌, refl, sym, ap, ◌∙◌, inl, inr, String, Bool, true, false, not, Option, none, some, List, [],
  ◌∷◌, Dict, lookup, insert, lookup-insert, contains, ◌==◌, text_key, if◌then◌else◌, Bool-cases,
  Option-cases,
}
use computer_vision.Server.{
  SafetyEvent, Repository, make_repository, ingest, Reply, http_error, answered, is_mismatch,
  post_event,
}

module _ (Content Heartbeat Metrics Configuration : Type 0) where
  -- An event with the idempotency key that it is posted with.
  abbrev pub Post : Type 0
  Post = SafetyEvent Content × Option String

  -- A post with no key, or with the event's own id as its key.
  abbrev pub is_accepted : Option String → String → Bool
  is_accepted none id = true
  is_accepted (some key) id = key == id

  mismatch-is_accepted :
      (key : Option String) (id : String) → is_mismatch key id ≡ not (is_accepted key id)
  mismatch-is_accepted none id = refl
  mismatch-is_accepted (some key) id = refl

  -- The first accepted post of an id: a post whose key is another id is none.
  abbrev pub first_post : String → List Post → Option (SafetyEvent Content)
  first_post id [] = none
  first_post id (p ∷ posts) =
      if is_accepted p.1 p.0.event_id && p.0.event_id == id then some p.0 else first_post id posts

  abbrev pub or_else :
      Option (SafetyEvent Content) → Option (SafetyEvent Content) → Option (SafetyEvent Content)
  or_else none other = other
  or_else (some e) other = some e

  abbrev pub is_new : Option (SafetyEvent Content) → Bool
  is_new none = true
  is_new (some e) = false

  abbrev pub Store : Type 0
  Store = Repository Content Heartbeat Metrics Configuration

  abbrev pub post_all : List Post → Store → Store
  post_all [] s = s
  post_all (p ∷ posts) s =
      post_all posts (post_event Content Heartbeat Metrics Configuration p.0 p.1 s).0

  abbrev post : Post → Store → Store × Reply
  post p s = post_event Content Heartbeat Metrics Configuration p.0 p.1 s

  contains-is_new :
      (id : String) (d : Dict String (SafetyEvent Content))
      → contains id d ≡ not (is_new (lookup id d))
  unfolding contains
  contains-is_new id d = elim (Option-cases (lookup id d)) [
    | inl e ↦ rw (contains, e) refl
    | inr (x, e) ↦ rw (contains, e) refl
  ]

  or_else-none : (o : Option (SafetyEvent Content)) → or_else o none ≡ o
  or_else-none none = refl
  or_else-none (some e) = refl

  or_else_assoc :
      (o p q : Option (SafetyEvent Content)) → or_else (or_else o p) q ≡ or_else o (or_else p q)
  or_else_assoc none p q = refl
  or_else_assoc (some e) p q = refl

  -- What one post makes of the events, by whether its key fits and its id is new.
  abbrev kept : Post → Store → Bool → Bool → Dict String (SafetyEvent Content)
  kept p s false new = s.events
  kept p s true false = s.events
  kept p s true true = insert p.0.event_id p.0 s.events

  -- What a post is answered, by whether it is accepted and its id is new.
  abbrev pub replied : Post → Bool → Bool → Reply
  replied p false new = http_error 409
  replied p true true =
      answered
        (record { status = 201; event_id = p.0.event_id; accepted = true; duplicate = false })
  replied p true false =
      answered
        (record { status = 200; event_id = p.0.event_id; accepted = false; duplicate = true })

  post_event-eq :
      (p : Post) (s : Store)
      → ((post p s).0.events
          ≡ kept p s (is_accepted p.1 p.0.event_id) (is_new (lookup p.0.event_id s.events)))
        × ((post p s).1
            ≡ replied p (is_accepted p.1 p.0.event_id) (is_new (lookup p.0.event_id s.events)))
  unfolding post_event ingest
  post_event-eq p s = elim (Bool-cases (is_accepted p.1 p.0.event_id)) [
    | inr bad ↦ rw (mismatch-is_accepted p.1 p.0.event_id, bad) (refl, refl)
    | inl good ↦
        rw (mismatch-is_accepted p.1 p.0.event_id, good, contains-is_new p.0.event_id s.events)
          (elim (Bool-cases (is_new (lookup p.0.event_id s.events))) [
            | inl new ↦ rw new (refl, refl)
            | inr old ↦ rw old (refl, refl)
          ])
  ]

  at_same :
      (id : String) (p : Post) (s : Store)
      → (p.0.event_id == id) ≡ true
      → lookup id s.events ≡ lookup p.0.event_id s.events
  at_same id p s same =
      ap (λ i. lookup i s.events) (sym ((text_key.same_iff p.0.event_id id).0 same))

  lookup-kept :
      (id : String) (p : Post) (s : Store)
      → lookup id (kept p s true (is_new (lookup p.0.event_id s.events)))
        ≡ or_else (lookup id s.events) (if p.0.event_id == id then some p.0 else none)
  lookup-kept id p s = elim (Option-cases (lookup p.0.event_id s.events)) [
    | inl unseen ↦ rw unseen (
        lookup-insert p.0.event_id id p.0 s.events ∙ elim (Bool-cases (p.0.event_id == id)) [
          | inl same ↦ rw (same, at_same id p s same ∙ unseen) refl
          | inr other ↦ rw other (sym (or_else-none (lookup id s.events)))
        ])
    | inr (x, seen) ↦ rw seen (elim (Bool-cases (p.0.event_id == id)) [
      | inl same ↦ rw (same, at_same id p s same ∙ seen) refl
      | inr other ↦ rw other (sym (or_else-none (lookup id s.events)))
    ])
  ]

  lookup-post_event :
      (id : String) (p : Post) (s : Store)
      → lookup id (post p s).0.events ≡ or_else (lookup id s.events) (first_post id (p ∷ []))
  lookup-post_event id p s =
      ap (lookup id) (post_event-eq p s).0 ∙ elim (Bool-cases (is_accepted p.1 p.0.event_id)) [
        | inr bad ↦ rw bad (sym (or_else-none (lookup id s.events)))
        | inl good ↦ rw good (lookup-kept id p s)
      ]

  first_post-cons :
      (id : String) (p : Post) (posts : List Post)
      → or_else (first_post id (p ∷ [])) (first_post id posts) ≡ first_post id (p ∷ posts)
  first_post-cons id p posts = elim (Bool-cases (is_accepted p.1 p.0.event_id)) [
    | inr bad ↦ rw bad refl
    | inl good ↦ elim (Bool-cases (p.0.event_id == id)) [
      | inl same ↦ rw (good, same) refl
      | inr other ↦ rw (good, other) refl
    ]
  ]

  lookup-post_all :
      (id : String) (posts : List Post) (s : Store)
      → lookup id (post_all posts s).events ≡ or_else (lookup id s.events) (first_post id posts)
  lookup-post_all id [] s = sym (or_else-none (lookup id s.events))
  lookup-post_all id (p ∷ posts) s =
      lookup-post_all id posts (post p s).0
      ∙ ap (λ o. or_else o (first_post id posts)) (lookup-post_event id p s)
      ∙ or_else_assoc (lookup id s.events) (first_post id (p ∷ [])) (first_post id posts)
      ∙ ap (or_else (lookup id s.events)) (first_post-cons id p posts)

  abbrev pub posted : Dict String Configuration → List Post → Store
  posted configurations posts =
      post_all posts (make_repository Content Heartbeat Metrics Configuration configurations)

  -- After any posts, the event of an id is the one of the first post of that id that had no key or the
  -- id as its key. The next post is refused with 409 if its key is another id, answered 201 as accepted
  -- if no such post had its id, and answered 200 as a duplicate otherwise.
  pub post_event-first :
      (configurations : Dict String Configuration) (posts : List Post) (id : String) (p : Post)
      → (lookup id (posted configurations posts).events ≡ first_post id posts)
        × ((post_event Content Heartbeat Metrics Configuration p.0 p.1
              (posted configurations posts)).1
            ≡ replied p (is_accepted p.1 p.0.event_id) (is_new (first_post p.0.event_id posts)))
  unfolding lookup
  post_event-first configurations posts id p =
      let s = make_repository Content Heartbeat Metrics Configuration configurations in
      (
        lookup-post_all id posts s,
        (post_event-eq p (posted configurations posts)).1
            ∙ ap (λ o. replied p (is_accepted p.1 p.0.event_id) (is_new o))
                (lookup-post_all p.0.event_id posts s),
      )
