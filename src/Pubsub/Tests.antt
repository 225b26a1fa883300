-- ===== src/Pubsub/Tests.antt =====
-- Topics of a house, and a full pool of four subscriptions.
use libmcu.Base.{
  u8, length, ℕ, ◌≡◌, ◌⊎◌, refl, Bool, true, false, some, List, [], ◌∷◌, ◌++◌, done, arith,
}
use libmcu.Pubsub.{is_topic_matched_with}
use libmcu.Pubsub.Topic.{Level, exact, any, rest, filter_text, join, is_topic_matched_with_lem}
use libmcu.Pubsub.Pool.{
  Subscription, Pubsub, PubsubError, success, no_exist_subscriber, copy_subscriptions,
  publish_internal, count_subscribers, store, subscribe_core, pubsub_unsubscribe,
}
use libmcu.Pubsub.Slots.{is_in}
use libmcu.Pubsub.Capacity.{IsValid}
use libmcu.Pubsub.Subscribe.{reached, call_of, subscribe_core_lem, pubsub_unsubscribe_lem}

-- a/+/#
abbrev filter : List Level
filter = exact (97 ∷ []) ∷ any ∷ rest ∷ []

-- a/b/c
abbrev topic : List (List ℕ)
topic = (97 ∷ []) ∷ (98 ∷ []) ∷ (99 ∷ []) ∷ []

is_topic_matched_with_lem_example :
    is_topic_matched_with (97 ∷ 47 ∷ 43 ∷ 47 ∷ 35 ∷ []) (97 ∷ 47 ∷ 98 ∷ 47 ∷ 99 ∷ []) ≡ some true
is_topic_matched_with_lem_example =
    is_topic_matched_with_lem filter topic (omega arith) (omega arith)

abbrev sub_all : Subscription
sub_all = record { topic_filter = some (35 ∷ []); callback = 64; context = 2 }

abbrev full : Pubsub
full = record {
  pool = some 8 ∷ some 16 ∷ some 24 ∷ some 32 ∷ [];
  capacity = 4;
  length = 4;
  heap = λ x. sub_all;
}

full-IsValid : IsValid full
unfolding copy_subscriptions
full-IsValid = record {
  pow = 2;
  low = omega arith;
  high = omega arith;
  cap_pow = refl;
  size = refl;
  used = refl;
}

subscribe_core_lem_example :
    let s : Subscription = record {
      topic_filter = some (filter_text filter);
      callback = 96;
      context = 4;
    } in
    let heap = store full.heap 40 s in
    (ok : Bool) × (m' : Pubsub) × (subscribe_core full 40 (some (filter_text filter)) 96 4 true
      ≡ done (ok, m'))
    × IsValid m'
    × ((ok ≡ true)
          × ((before after : List ℕ) × (copy_subscriptions full.pool ≡ before ++ after)
              × (copy_subscriptions m'.pool ≡ before ++ (40 ∷ after))
              × (publish_internal m'.heap m'.pool (join topic)
                  ≡ reached heap before (join topic)
                    ++ (call_of s (join topic) ++ reached heap after (join topic)))
              × (count_subscribers m'.heap m'.pool (join topic)
                  ≡ u8 (length (publish_internal m'.heap m'.pool (join topic)))))
        ⊎ (ok ≡ false) × (true ≡ false) × (4 ≡ full.capacity) × (m' ≡ record full { heap = heap }))
subscribe_core_lem_example =
    subscribe_core_lem 40 (filter_text filter) 96 4 true (join topic) full-IsValid (omega arith)
      (λ e. absurd (omega arith))

pubsub_unsubscribe_lem_example :
    (e : PubsubError) × (m' : Pubsub) × (pubsub_unsubscribe full (some 16) true ≡ done (e, m'))
    × IsValid m'
    × ((e ≡ success)
          × ((before after : List ℕ) × (copy_subscriptions full.pool ≡ before ++ (16 ∷ after))
              × (copy_subscriptions m'.pool ≡ before ++ after)
              × (publish_internal full.heap full.pool (join topic)
                  ≡ reached full.heap before (join topic)
                    ++ (call_of sub_all (join topic) ++ reached full.heap after (join topic)))
              × (publish_internal m'.heap m'.pool (join topic)
                  ≡ reached full.heap before (join topic) ++ reached full.heap after (join topic))
              × (count_subscribers m'.heap m'.pool (join topic)
                  ≡ u8 (
                      length (
                        reached full.heap before (join topic)
                        ++ reached full.heap after (join topic)))))
        ⊎ (e ≡ no_exist_subscriber)
          × (is_in 16 (copy_subscriptions full.pool) ≡ false)
          × (m' ≡ full))
pubsub_unsubscribe_lem_example =
    pubsub_unsubscribe_lem 16 (35 ∷ []) true (join topic) full-IsValid refl
