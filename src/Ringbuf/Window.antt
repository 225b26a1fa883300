-- ===== src/Ringbuf/Window.antt =====
-- The bytes seen through a window that goes round a buffer, and storing bytes round it.
use native.Mathlib.Nat.{mod-eq_of_lt, mod-add-mod, mod-eq-sub-mod, mod-lt}
use native.Mathlib.Decide.{dec_lt}
use libmcu.Base.{
  ℕ, zero, suc, ◌+◌, ◌-◌, ◌%◌, ◌≤◌, ◌<◌, min, ◌≡◌, refl, ap, ap₂, ◌∙◌, sym, ◌≢◌, List, [], ◌∷◌,
  ◌++◌, length, get_or, set, take, drop, blit, length-set, get_or-set_self, get_or-set_ne, arith,
}

-- The `n` bytes from position `h` on; a position is reduced by the capacity.
abbrev pub window : List ℕ → ℕ → ℕ → ℕ → List ℕ
window buf cap h zero = []
window buf cap h (suc n) = get_or buf (h % cap) 0 ∷ window buf cap (suc h) n

-- Storing bytes one by one from position `h` on.
abbrev pub store : List ℕ → ℕ → ℕ → List ℕ → List ℕ
store buf cap h [] = buf
store buf cap h (x ∷ xs) = store (set buf (h % cap) x) cap (suc h) xs

pub length-window : (buf : List ℕ) (cap h n : ℕ) → length (window buf cap h n) ≡ n
length-window buf cap h zero = refl
length-window buf cap h (suc n) = ap suc (length-window buf cap (suc h) n)

pub length-store :
    (buf : List ℕ) (cap h : ℕ) (xs : List ℕ) → length (store buf cap h xs) ≡ length buf
length-store buf cap h [] = refl
length-store buf cap h (x ∷ xs) =
    length-store (set buf (h % cap) x) cap (suc h) xs ∙ length-set buf (h % cap) x

suc-mod-eq : (cap h g : ℕ) → h % cap ≡ g % cap → suc h % cap ≡ suc g % cap
suc-mod-eq cap h g e = sym (suc-via h) ∙ ap (λ t. (t + 1) % cap) e ∙ suc-via g
  where
    suc-via : (t : ℕ) → (t % cap + 1) % cap ≡ suc t % cap
    suc-via t = mod-add-mod t cap 1 ∙ ap (λ s. s % cap) (omega arith)

-- Only the position's remainder matters.
pub window_mod :
    (buf : List ℕ) (cap h g n : ℕ) → h % cap ≡ g % cap → window buf cap h n ≡ window buf cap g n
window_mod buf cap h g zero e = refl
window_mod buf cap h g (suc n) e =
    ap₂ ◌∷◌ (ap (λ t. get_or buf t 0) e)
      (window_mod buf cap (suc h) (suc g) n (suc-mod-eq cap h g e))

pub store_mod :
    (buf : List ℕ) (cap h g : ℕ) (xs : List ℕ)
    → h % cap ≡ g % cap
    → store buf cap h xs ≡ store buf cap g xs
store_mod buf cap h g [] e = refl
store_mod buf cap h g (x ∷ xs) e =
    ap (λ t. store (set buf t x) cap (suc h) xs) e
    ∙ store_mod (set buf (g % cap) x) cap (suc h) (suc g) xs (suc-mod-eq cap h g e)

pub window_append :
    (buf : List ℕ) (cap h g n m k : ℕ)
    → k ≡ n + m
    → g ≡ h + n
    → window buf cap h k ≡ window buf cap h n ++ window buf cap g m
window_append buf cap h g zero m k e f =
    let p : k ≡ m = omega arith in let q : g ≡ h = omega arith in rw (p, q)
window_append buf cap h g (suc n) m zero e f = absurd (omega arith)
window_append buf cap h g (suc n) m (suc k) e f =
    ap (λ t. get_or buf (h % cap) 0 ∷ t)
      (window_append buf cap (suc h) g n m k (omega arith) (omega arith))

pub take-window :
    (buf : List ℕ) (cap m h n : ℕ) → take m (window buf cap h n) ≡ window buf cap h (min m n)
take-window buf cap zero h n = ap (window buf cap h) {x = 0} (omega arith)
take-window buf cap (suc m) h zero = ap (window buf cap h) {x = 0} (omega arith)
take-window buf cap (suc m) h (suc n) =
    ap (λ t. get_or buf (h % cap) 0 ∷ t) (take-window buf cap m (suc h) n)
    ∙ ap (window buf cap h) {x = suc (min m n)} (omega arith)

pub drop-window :
    (buf : List ℕ) (cap m h n : ℕ) → drop m (window buf cap h n) ≡ window buf cap (h + m) (n - m)
drop-window buf cap zero h n = ap₂ (window buf cap) {x = h} {y = h + 0} (omega arith) (omega arith)
drop-window buf cap (suc m) h zero = ap (window buf cap (h + suc m)) {x = 0} (omega arith)
drop-window buf cap (suc m) h (suc n) =
    drop-window buf cap m (suc h) n
    ∙ ap₂ (window buf cap) {x = suc h + m} {y = h + suc m} (omega arith) (omega arith)

take-drop_head :
    (buf : List ℕ) (h n : ℕ)
    → h < length buf
    → take (suc n) (drop h buf) ≡ get_or buf h 0 ∷ take n (drop (suc h) buf)
take-drop_head [] h n lt = absurd (omega arith)
take-drop_head (x ∷ buf) zero n lt = refl
take-drop_head (x ∷ buf) (suc h) n lt = take-drop_head buf h n (omega arith)

-- A window that does not go round is a slice.
pub window_slice :
    (buf : List ℕ) (cap h n : ℕ)
    → h + n ≤ cap
    → cap ≤ length buf
    → window buf cap h n ≡ take n (drop h buf)
window_slice buf cap h zero le fits = refl
window_slice buf cap h (suc n) le fits =
    ap₂ (λ t rest. get_or buf t 0 ∷ rest) (mod-eq_of_lt {n = h} {m = cap} (omega arith))
      (window_slice buf cap (suc h) n (omega arith) fits)
    ∙ sym (take-drop_head buf h n (omega arith))

-- Fewer than `cap` steps round the buffer do not come back to the start.
mod_far : (cap t k : ℕ) → 0 < k → k < cap → (t + k) % cap ≢ t % cap
mod_far cap t k pos lt = elim (dec_lt (t % cap + k) cap) [
  | yes p ↦ omega (arith, mod-add-mod t cap k, mod-eq_of_lt p)
  | no p ↦ omega (
    arith,
    mod-add-mod t cap k,
    mod-lt t {m = cap} (omega arith),
    mod-eq-sub-mod {n = t % cap + k} {m = cap} (omega arith),
    mod-eq_of_lt {n = t % cap + k - cap} {m = cap}
        (omega (arith, mod-lt t {m = cap} (omega arith))),
  )
]

-- Bytes stored from `g` on leave an earlier position alone.
get_or-store_far :
    (buf : List ℕ) (cap t g : ℕ) (xs : List ℕ)
    → t < g
    → g + length xs ≤ t + cap
    → get_or (store buf cap g xs) (t % cap) 0 ≡ get_or buf (t % cap) 0
get_or-store_far buf cap t g [] lt le = refl
get_or-store_far buf cap t g (x ∷ xs) lt le =
    get_or-store_far (set buf (g % cap) x) cap t (suc g) xs (omega arith) (omega arith)
    ∙ get_or-set_ne buf (g % cap) (t % cap) x 0 apart
  where
    apart : g % cap ≢ t % cap
    apart =
        let e : g ≡ t + (g - t) = omega arith in
        rw e (mod_far cap t (g - t) (omega arith) (omega arith))

window-store_far :
    (buf : List ℕ) (cap h n g : ℕ) (xs : List ℕ)
    → h + n ≤ g
    → g + length xs ≤ h + cap
    → window (store buf cap g xs) cap h n ≡ window buf cap h n
window-store_far buf cap h zero g xs le fits = refl
window-store_far buf cap h (suc n) g xs le fits =
    ap₂ ◌∷◌ (get_or-store_far buf cap h g xs (omega arith) fits)
      (window-store_far buf cap (suc h) n g xs (omega arith) (omega arith))

window-store_self :
    (buf : List ℕ) (cap g : ℕ) (xs : List ℕ)
    → cap ≤ length buf
    → length xs ≤ cap
    → window (store buf cap g xs) cap g (length xs) ≡ xs
window-store_self buf cap g [] fits le = refl
window-store_self buf cap g (x ∷ xs) fits le =
    ap₂ ◌∷◌
      (get_or-store_far (set buf (g % cap) x) cap g (suc g) xs (omega arith) (omega arith) ∙ stored)
      (window-store_self (set buf (g % cap) x) cap (suc g) xs (rw length-set fits) (omega arith))
  where
    stored : get_or (set buf (g % cap) x) (g % cap) 0 ≡ x
    stored = get_or-set_self buf (g % cap) x 0 (omega (arith, mod-lt g {m = cap} (omega arith)))

-- Storing just past a window extends it by the bytes stored, as long as they fit.
pub window-store :
    (buf : List ℕ) (cap h n g k : ℕ) (xs : List ℕ)
    → cap ≤ length buf
    → g ≡ h + n
    → k ≡ n + length xs
    → k ≤ cap
    → window (store buf cap g xs) cap h k ≡ window buf cap h n ++ xs
window-store buf cap h n g k xs fits e f le =
    window_append (store buf cap g xs) cap h g n (length xs) k f e
    ∙ ap₂ ◌++◌ (window-store_far buf cap h n g xs (omega arith) (omega arith))
        (window-store_self buf cap g xs fits (omega arith))

pub store_append :
    (buf : List ℕ) (cap h g : ℕ) (xs ys : List ℕ)
    → g ≡ h + length xs
    → store buf cap h (xs ++ ys) ≡ store (store buf cap h xs) cap g ys
store_append buf cap h g [] ys e = ap (λ t. store buf cap t ys) {x = h} {y = g} (omega arith)
store_append buf cap h g (x ∷ xs) ys e =
    store_append (set buf (h % cap) x) cap (suc h) g xs ys (omega arith)

-- Short of the end, storing is one `memcpy`.
pub store-eq-blit :
    (buf : List ℕ) (cap h : ℕ) (xs : List ℕ)
    → h + length xs ≤ cap
    → store buf cap h xs ≡ blit buf h xs
store-eq-blit buf cap h [] le = refl
store-eq-blit buf cap h (x ∷ xs) le =
    ap (λ t. store (set buf t x) cap (suc h) xs) (mod-eq_of_lt {n = h} {m = cap} (omega arith))
    ∙ store-eq-blit (set buf h x) cap (suc h) xs (omega arith)
