-- ===== src/Pubsub/Subscribe.antt =====
-- Whom a publication reaches before and after a subscription comes or goes.
use libmcu.Base.{
  suc, length, u8, arith, ℕ, ◌<◌, ◌≡◌, ◌≢◌, refl, ap, ◌∙◌, ◌⊎◌, inl, inr, Bool, true, false, Option,
  none, some, List, [], ◌∷◌, ◌++◌, ==_iff, ==_ne, if◌then◌else◌, done,
}
use libmcu.Pubsub.Pool.{
  Subscription, Pubsub, PubsubError, success, no_exist_subscriber, get_context, is_match,
  count_subscribers, copy_subscriptions, publish_internal, store, subscribe_core,
  pubsub_unsubscribe,
}
use libmcu.Pubsub.Slots.{Among, is_in}
use libmcu.Pubsub.Capacity.{IsValid, register_subscription_lem, unregister_subscription_lem}

-- The calls that these subscriptions get of a publication.
abbrev pub reached : (ℕ → Subscription) → List ℕ → List ℕ → List (ℕ × ℕ)
reached heap [] topic = []
reached heap (sub ∷ subs) topic =
    if is_match (heap sub).topic_filter topic
    then ((heap sub).callback, get_context (heap sub)) ∷ reached heap subs topic
    else reached heap subs topic

publish_lem :
    (heap : ℕ → Subscription) (pool : List (Option ℕ)) (topic : List ℕ)
    → publish_internal heap pool topic ≡ reached heap (copy_subscriptions pool) topic
unfolding publish_internal copy_subscriptions
publish_lem heap [] topic = refl
publish_lem heap (none ∷ ps) topic = publish_lem heap ps topic
publish_lem heap (some sub ∷ ps) topic =
    ap
      (λ rest.
        if is_match (heap sub).topic_filter topic
        then ((heap sub).callback, get_context (heap sub)) ∷ rest
        else rest)
      (publish_lem heap ps topic)

-- The count, in its byte, is that of the calls.
pub count_lem :
    (heap : ℕ → Subscription) (pool : List (Option ℕ)) (topic : List ℕ)
    → count_subscribers heap pool topic ≡ u8 (length (publish_internal heap pool topic))
unfolding count_subscribers publish_internal
count_lem heap [] topic = refl
count_lem heap (none ∷ ps) topic = count_lem heap ps topic
count_lem heap (some sub ∷ ps) topic =
    by_match (is_match (heap sub).topic_filter topic) _ _ (count_lem heap ps topic)
  where
    by_match :
        (b : Bool) {n : ℕ} (calls : List (ℕ × ℕ)) (c : ℕ × ℕ)
        → n ≡ u8 (length calls)
        → (if b then u8 (suc n) else n) ≡ u8 (length (if b then c ∷ calls else calls))
    by_match true calls c h = omega arith
    by_match false calls c h = h

if_append {ℓ} :
    {A : Type ℓ} (b : Bool) (x : A) (xs ys : List A)
    → (if b then x ∷ (xs ++ ys) else xs ++ ys) ≡ (if b then x ∷ xs else xs) ++ ys
if_append true x xs ys = refl
if_append false x xs ys = refl

reached-append :
    (heap : ℕ → Subscription) (xs ys topic : List ℕ)
    → reached heap (xs ++ ys) topic ≡ reached heap xs topic ++ reached heap ys topic
reached-append heap [] ys topic = refl
reached-append heap (x ∷ xs) ys topic =
    ap
      (λ rest.
        if is_match (heap x).topic_filter topic
        then ((heap x).callback, get_context (heap x)) ∷ rest
        else rest)
      (reached-append heap xs ys topic)
    ∙ if_append (is_match (heap x).topic_filter topic) ((heap x).callback, get_context (heap x))
        (reached heap xs topic) (reached heap ys topic)

-- The call that a subscription gets of a publication, or none.
abbrev pub call_of : Subscription → List ℕ → List (ℕ × ℕ)
call_of s topic = if is_match s.topic_filter topic then (s.callback, get_context s) ∷ [] else []

reached_middle :
    (heap : ℕ → Subscription) (sub : ℕ) (before after topic : List ℕ)
    → reached heap (before ++ (sub ∷ after)) topic
      ≡ reached heap before topic ++ (call_of (heap sub) topic ++ reached heap after topic)
reached_middle heap sub before after topic =
    reached-append heap before (sub ∷ after) topic
    ∙ ap (λ t. reached heap before topic ++ t)
        (if_append (is_match (heap sub).topic_filter topic)
          ((heap sub).callback, get_context (heap sub)) [] (reached heap after topic))

publish_middle :
    (m : Pubsub) {sub : ℕ} {others : List ℕ} (s : Subscription) (topic : List ℕ)
    → m.heap sub ≡ s
    → (a : Among sub others (copy_subscriptions m.pool))
    → publish_internal m.heap m.pool topic
      ≡ reached m.heap a.before topic ++ (call_of s topic ++ reached m.heap a.after topic)
publish_middle m {sub} s topic e a =
    publish_lem m.heap m.pool topic
    ∙ ap (λ xs. reached m.heap xs topic) a.with_sub
    ∙ reached_middle m.heap sub a.before a.after topic
    ∙ ap (λ u. reached m.heap a.before topic ++ (call_of u topic ++ reached m.heap a.after topic)) e

store_self : (heap : ℕ → Subscription) (sub : ℕ) (s : Subscription) → store heap sub s sub ≡ s
store_self heap sub s = rw ((==_iff sub sub).1 refl) refl

-- Subscribing with a filter and a callback in a valid pool of fewer than 128 subscriptions never
-- meets a failed assert. It keeps the pool valid and either adds the subscription, so that of
-- every publication it gets its call exactly if the filter matches, and the others get theirs as
-- before and in their order, and counting gives the number of these calls; or it fails: only in a full pool with no memory for a larger one.
pub subscribe_core_lem :
    {m : Pubsub} (sub : ℕ) (filter : List ℕ) (cb context : ℕ) (memory : Bool) (topic : List ℕ)
    → IsValid m
    → m.length < 128
    → cb ≢ 0
    → let s : Subscription = record {
      topic_filter = some filter;
      callback = cb;
      context = context;
    } in
      let heap = store m.heap sub s in
      (ok : Bool) × (m' : Pubsub) × (subscribe_core m sub (some filter) cb context memory
        ≡ done (ok, m'))
      × IsValid m'
      × ((ok ≡ true)
            × ((before after : List ℕ) × (copy_subscriptions m.pool ≡ before ++ after)
                × (copy_subscriptions m'.pool ≡ before ++ (sub ∷ after))
                × (publish_internal m'.heap m'.pool topic
                    ≡ reached heap before topic ++ (call_of s topic ++ reached heap after topic))
                × (count_subscribers m'.heap m'.pool topic
                    ≡ u8 (length (publish_internal m'.heap m'.pool topic))))
          ⊎ (ok ≡ false)
            × (memory ≡ false)
            × (m.length ≡ m.capacity)
            × (m' ≡ record m { heap = heap }))
unfolding subscribe_core
subscribe_core_lem {m} sub filter cb context memory topic v few cb_set =
    let s : Subscription = record {
      topic_filter = some filter;
      callback = cb;
      context = context;
    } in
    let m1 : Pubsub = record m { heap = store m.heap sub s } in
    let v1 : IsValid m1 = record {
      pow = v.pow;
      low = v.low;
      high = v.high;
      cap_pow = v.cap_pow;
      size = v.size;
      used = v.used;
    } in
    let (ok, m', e, v', same, out) = register_subscription_lem {m = m1} sub memory v1 few in
    (
      ok,
      m',
      rw (==_ne cb 0 cb_set) e,
      v',
      (elim out [
        | inl (yes_, a) ↦ inl (
          yes_,
          (
            a.before,
            a.after,
            a.without,
            a.with_sub,
            publish_middle m' s topic (ap (λ h. h sub) same ∙ store_self m.heap sub s) a
                ∙ ap (λ h. reached h a.before topic ++ (call_of s topic ++ reached h a.after topic))
                    same,
            count_lem m'.heap m'.pool topic,
          ),
        )
        | inr (no_, failed, full, kept) ↦ inr (no_, failed, full, kept)
      ]),
    )

-- Unsubscribing from a valid pool, whatever the memory, keeps it valid. Of a subscription that is
-- there, one occurrence leaves the pool, and with it one call of each publication that matches; the
-- other calls, also those of further occurrences, stay as they were, and counting gives their
-- number. One that is not there is an error that changes nothing.
pub pubsub_unsubscribe_lem :
    {m : Pubsub} (sub : ℕ) (filter : List ℕ) (memory : Bool) (topic : List ℕ)
    → IsValid m
    → (m.heap sub).topic_filter ≡ some filter
    → (e : PubsubError) × (m' : Pubsub) × (pubsub_unsubscribe m (some sub) memory ≡ done (e, m'))
      × IsValid m'
      × ((e ≡ success)
            × ((before after : List ℕ) × (copy_subscriptions m.pool ≡ before ++ (sub ∷ after))
                × (copy_subscriptions m'.pool ≡ before ++ after)
                × (publish_internal m.heap m.pool topic
                    ≡ reached m.heap before topic
                      ++ (call_of (m.heap sub) topic ++ reached m.heap after topic))
                × (publish_internal m'.heap m'.pool topic
                    ≡ reached m.heap before topic ++ reached m.heap after topic)
                × (count_subscribers m'.heap m'.pool topic
                    ≡ u8 (length (reached m.heap before topic ++ reached m.heap after topic))))
          ⊎ (e ≡ no_exist_subscriber) × (is_in sub (copy_subscriptions m.pool) ≡ false) × (m' ≡ m))
unfolding pubsub_unsubscribe
pubsub_unsubscribe_lem {m} sub filter memory topic v known =
    let (ok, m', e, v', same, out) = unregister_subscription_lem sub memory v in
    let calls : (a : Among sub (copy_subscriptions m'.pool) (copy_subscriptions m.pool))
        → m'.heap ≡ m.heap
        → publish_internal m'.heap m'.pool topic
          ≡ reached m.heap a.before topic ++ reached m.heap a.after topic =
      λ a same.
        publish_lem m'.heap m'.pool topic
        ∙ ap (λ xs. reached m'.heap xs topic) a.without
        ∙ reached-append m'.heap a.before a.after topic
        ∙ ap (λ h. reached h a.before topic ++ reached h a.after topic) same in
    elim out [
      | inl (yes_, a) ↦ (
        success,
        m',
        rw (pubsub_unsubscribe, known) (rw (e, yes_) refl),
        v',
        inl (
          refl,
          (
            a.before,
            a.after,
            a.with_sub,
            a.without,
            publish_middle m (m.heap sub) topic refl a,
            calls a same,
            count_lem m'.heap m'.pool topic ∙ ap (λ c. u8 (length c)) (calls a same),
          ),
        ),
      )
      | inr (no_, gone, kept) ↦ (
        no_exist_subscriber,
        m',
        rw (pubsub_unsubscribe, known) (rw (e, no_) refl),
        v',
        inr (refl, gone, kept),
      )
    ]
