-- ===== src/Server/Examples.antt =====
-- Three posts to the server: an event, the same again, and one whose key is another id.
use computer_vision.Common.{
  ℕ, ◌≡◌, refl, String, none, some, List, [], ◌∷◌, Dict, lookup, insert, contains, text_key,
}
use computer_vision.Server.{SafetyEvent, ingest, post_event, get_configuration}
use computer_vision.Server.Ingest.{
  Post, is_accepted, first_post, is_new, replied, posted, post_event-first,
}

abbrev event : String → ℕ → SafetyEvent ℕ
event id content = record { event_id = id; content = content }

abbrev posts : List (Post ℕ Unit Unit String)
posts = (event "e1" 5, none) ∷ (event "e1" 6, some "e1") ∷ (event "e2" 7, some "e1") ∷ []

abbrev published : Dict String String
published = ("edge-1", "configuration 3") ∷ []

post_event-first_example :
    (lookup "e1" (posted ℕ Unit Unit String published posts).events
      ≡ first_post ℕ Unit Unit String "e1" posts)
    × ((post_event ℕ Unit Unit String
          (event "e2" 8)
          none
          (posted ℕ Unit Unit String published posts)).1
        ≡ replied ℕ Unit Unit String
            (event "e2" 8, none)
            (is_accepted ℕ Unit Unit String none "e2")
            (is_new ℕ Unit Unit String (first_post ℕ Unit Unit String "e2" posts)))
post_event-first_example =
    post_event-first ℕ Unit Unit String published posts "e1" (event "e2" 8, none)

first_kept : lookup "e1" (posted ℕ Unit Unit String published posts).events ≡ some (event "e1" 5)
unfolding post_event ingest lookup insert contains
first_kept = refl

configured :
    get_configuration ℕ Unit Unit String "edge-1" (posted ℕ Unit Unit String published posts)
    ≡ some "configuration 3"
unfolding post_event ingest lookup insert contains
configured = refl
