-- ===== src/Pubsub/Pool.antt =====
-- modules/pubsub/src/pubsub.c: the pool of subscriptions, and the functions of `pubsub.h`.
-- `memory` says whether the `calloc` that a call may come to succeeds. The lock makes the calls of
-- several threads a sequence of these. `pubsub_create` and `pubsub_destroy` do nothing.
use libmcu.Base.{
  ℕ, zero, suc, ◌+◌, ◌-◌, ◌*◌, ◌/◌, ◌^◌, bit_and, bit_or, Bool, true, false, not, ◌&&◌, ◌||◌,
  Option, none, some, List, [], ◌∷◌, ◌++◌, map, replicate, length, ltb, leb, ◌==◌, if◌then◌else◌,
  u8, u16, u32, Outcome, done, undefined, ◌>>=◌,
}
use libmcu.Base
use libmcu.Pubsub.{is_topic_matched_with}

abbrev pub min_subscription_capacity : ℕ
min_subscription_capacity = 4

-- A `callback` is an address, 0 for NULL.
pub record Subscription : Type 0 where
  pub topic_filter : Option (List ℕ)
  pub callback : ℕ
  pub context : ℕ

pub record Pubsub : Type 0 where
  pub pool : List (Option ℕ)
  pub capacity : ℕ
  pub length : ℕ
  pub heap : ℕ → Subscription

pub data PubsubError : Type 0 where
  success error exist_topic no_exist_topic no_memory invalid_param exist_subscriber
        no_exist_subscriber :
      PubsubError

-- GET_SUBSCRIBER_CONTEXT, IS_SUBSCRIBER_STATIC and GET_CONTEXT_STATIC
unfoldable pub get_context : Subscription → ℕ
get_context s = bit_and s.context (2 ^ 32 - 2)

unfoldable pub is_static : Subscription → Bool
is_static s = not (bit_and s.context 1 == 0)

unfoldable pub get_context_static : ℕ → ℕ
get_context_static ctx = bit_or ctx 1

-- A filter that is not NULL, as `subscribe_core` sees to.
abbrev pub is_match : Option (List ℕ) → List ℕ → Bool
is_match none topic = false
is_match (some filter) topic = elim (is_topic_matched_with filter topic) [
  | none ↦ false
  | some b ↦ b
]

unfoldable pub count_subscribers : (ℕ → Subscription) → List (Option ℕ) → List ℕ → ℕ
count_subscribers heap [] topic = 0
count_subscribers heap (none ∷ ps) topic = count_subscribers heap ps topic
count_subscribers heap (some sub ∷ ps) topic =
    let rest = count_subscribers heap ps topic in
    if is_match (heap sub).topic_filter topic then u8 (suc rest) else rest

-- What stands in `new_subs` before the NULLs.
unfoldable pub copy_subscriptions : List (Option ℕ) → List ℕ
copy_subscriptions [] = []
copy_subscriptions (none ∷ ps) = copy_subscriptions ps
copy_subscriptions (some sub ∷ ps) = sub ∷ copy_subscriptions ps

-- The pool moves to a new array from `calloc`.
unfoldable pub change_capacity : Pubsub → ℕ → Outcome Pubsub
change_capacity m new_capacity =
    let subs = copy_subscriptions m.pool in
    let count = u8 (Base.length subs) in
    if ltb count new_capacity && count == m.length
    then done (record m {
      capacity = new_capacity;
      pool = map some subs ++ replicate (new_capacity - Base.length subs) none;
    })
    else undefined

unfoldable pub expand_subscription_capacity : Pubsub → Bool → Outcome (Bool × Pubsub)
expand_subscription_capacity m memory =
    if not (ltb (u16 m.capacity * 2) 256)
    then undefined
    else if memory
    then (change_capacity m (u8 (m.capacity * 2)) >>= λ m'. done (true, m'))
    else done (false, m)

unfoldable pub shrink_subscription_capacity : Pubsub → Bool → Outcome Pubsub
shrink_subscription_capacity m memory =
    if leb m.capacity min_subscription_capacity
    then done m
    else if leb m.capacity (m.length * 2)
    then done m
    else if memory
    then change_capacity m (m.capacity / 2)
    else done m

-- The loop over the slots; `none` is its end with no free one.
unfoldable pub fill_slot : List (Option ℕ) → ℕ → Option (List (Option ℕ))
fill_slot [] sub = none
fill_slot (none ∷ ps) sub = some (some sub ∷ ps)
fill_slot (some x ∷ ps) sub = elim (fill_slot ps sub) [
  | none ↦ none
  | some ps' ↦ some (some x ∷ ps')
]

unfoldable pub place : Pubsub → ℕ → Outcome (Bool × Pubsub)
place m sub = elim (fill_slot m.pool sub) [
  | none ↦ undefined
  | some pool' ↦ done (true, record m { pool = pool'; length = u8 (m.length + 1) })
]

unfoldable pub register_subscription : Pubsub → ℕ → Bool → Outcome (Bool × Pubsub)
register_subscription m sub memory =
    let expanded = expand_subscription_capacity m memory >>= λ out.
    if out.0 then place out.1 sub else done (false, out.1) in
    if leb m.capacity m.length then expanded else place m sub

-- `pool[i] == sub`
abbrev pub is_slot_of : Option ℕ → ℕ → Bool
is_slot_of none sub = false
is_slot_of (some x) sub = x == sub

unfoldable pub clear_slot : List (Option ℕ) → ℕ → Option (List (Option ℕ))
clear_slot [] sub = none
clear_slot (p ∷ ps) sub =
    let rest = elim (clear_slot ps sub) as (λ o. Option (List (Option ℕ))) [
      | none ↦ none
      | some ps' ↦ some (p ∷ ps')
    ] in
    if is_slot_of p sub then some (none ∷ ps) else rest

unfoldable pub unregister_subscription : Pubsub → ℕ → Bool → Outcome (Bool × Pubsub)
unregister_subscription m sub memory = elim (clear_slot m.pool sub) [
  | none ↦ done (false, m)
  | some pool' ↦
      shrink_subscription_capacity (record m { pool = pool'; length = u8 (m.length + 255) }) memory
      >>= λ m'. done (true, m')
]

-- The callbacks called, each with its context.
unfoldable pub publish_internal : (ℕ → Subscription) → List (Option ℕ) → List ℕ → List (ℕ × ℕ)
publish_internal heap [] topic = []
publish_internal heap (none ∷ ps) topic = publish_internal heap ps topic
publish_internal heap (some sub ∷ ps) topic =
    let rest = publish_internal heap ps topic in
    if is_match (heap sub).topic_filter topic
    then ((heap sub).callback, get_context (heap sub)) ∷ rest
    else rest

abbrev pub store : (ℕ → Subscription) → ℕ → Subscription → ℕ → Subscription
store heap sub s x = if x == sub then s else heap x

-- The result says whether it is `sub` and not NULL.
unfoldable pub subscribe_core :
    Pubsub → ℕ → Option (List ℕ) → ℕ → ℕ → Bool → Outcome (Bool × Pubsub)
subscribe_core m sub none cb context memory = done (false, m)
subscribe_core m sub (some filter) cb context memory =
    if cb == 0
    then done (false, m)
    else register_subscription
        (record m {
          heap =
              store m.heap sub
                (record { topic_filter = some filter; callback = cb; context = context });
        })
        sub memory

-- `has_msg` says that `msg` is not NULL, and `none` for the topic is NULL.
unfoldable pub pubsub_publish : Pubsub → Option (List ℕ) → Bool → ℕ → PubsubError × List (ℕ × ℕ)
pubsub_publish m none has_msg msglen = (invalid_param, [])
pubsub_publish m (some topic) has_msg msglen =
    if not has_msg && ltb 0 msglen
    then (invalid_param, [])
    else (success, publish_internal m.heap m.pool topic)

unfoldable pub pubsub_subscribe_static :
    Pubsub → ℕ → Option (List ℕ) → ℕ → ℕ → Bool → Outcome (Bool × Pubsub)
pubsub_subscribe_static m handle topic_filter cb context memory =
    subscribe_core m handle topic_filter cb (get_context_static context) memory

-- `handle` is what `calloc` returns; the result is the handle or NULL.
unfoldable pub pubsub_subscribe :
    Pubsub → Option ℕ → Option (List ℕ) → ℕ → ℕ → Bool → Outcome (Option ℕ × Pubsub)
pubsub_subscribe m none topic_filter cb context memory = done (none, m)
pubsub_subscribe m (some handle) topic_filter cb context memory =
    subscribe_core m handle topic_filter cb context memory >>= λ out.
    done ((if out.0 then some handle else none), out.1)

-- A NULL handle is `none`. A subscription that is not static is freed.
unfoldable pub pubsub_unsubscribe : Pubsub → Option ℕ → Bool → Outcome (PubsubError × Pubsub)
pubsub_unsubscribe m none memory = done (invalid_param, m)
pubsub_unsubscribe m (some sub) memory = elim (m.heap sub).topic_filter [
  | none ↦ done (invalid_param, m)
  | some filter ↦ unregister_subscription m sub memory >>= λ out.
      done ((if out.0 then success else no_exist_subscriber), out.1)
]

-- The count, or the code of PUBSUB_INVALID_PARAM, -5.
unfoldable pub pubsub_count : Pubsub → Option (List ℕ) → ℕ
pubsub_count m none = 2 ^ 32 - 5
pubsub_count m (some topic) = count_subscribers m.heap m.pool topic

-- `memory` fails the assert.
unfoldable pub pubsub_init : (ℕ → Subscription) → Bool → Outcome Pubsub
pubsub_init heap memory =
    if memory
    then done (record {
      pool = replicate min_subscription_capacity none;
      capacity = min_subscription_capacity;
      length = 0;
      heap = heap;
    })
    else undefined

-- The subscriptions that `pubsub_deinit` frees, before the array.
unfoldable pub pubsub_deinit : (ℕ → Subscription) → List (Option ℕ) → List ℕ
pubsub_deinit heap [] = []
pubsub_deinit heap (none ∷ ps) = pubsub_deinit heap ps
pubsub_deinit heap (some sub ∷ ps) =
    let rest = pubsub_deinit heap ps in if not (is_static (heap sub)) then sub ∷ rest else rest
