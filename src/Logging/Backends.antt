-- ===== src/Logging/Backends.antt =====
-- The table of backends.
use libmcu.Base.{
  ℕ, suc, ◌≡◌, ◌⊎◌, inl, inr, refl, sym, ap, subst, ◌∙◌, false, Option, none, some, List, [], ◌∷◌,
  length, ◌==◌, if◌then◌else◌, errno, ==_iff,
}
use libmcu.Logging.{Backend, Logging}
use libmcu.Logging.Levels.{add_first, remove_first, logging_add_backend, logging_remove_backend}

module _ {W : Type 0} where
  -- The number of backends in use.
  abbrev pub in_use : List (Option (Backend W)) → ℕ
  in_use [] = 0
  in_use (none ∷ bs) = in_use bs
  in_use (some b ∷ bs) = suc (in_use bs)

  -- No backend of the table has the address.
  abbrev pub IsNew : List (Option (Backend W)) → ℕ → Type 0
  IsNew [] a = Unit
  IsNew (none ∷ bs) a = IsNew bs a
  IsNew (some b ∷ bs) a = ((b.address == a) ≡ false) × IsNew bs a

  -- What comes of a table when the backend gets a place.
  abbrev pub IsAdded :
      Backend W → List (Option (Backend W)) → Option (List (Option (Backend W))) → Type 0
  IsAdded b bs none = in_use bs ≡ length bs
  IsAdded b bs (some bs') =
      (in_use bs' ≡ suc (in_use bs))
      × (length bs' ≡ length bs)
      × (IsNew bs b.address → remove_first bs' (some b) ≡ some bs)

  add_first-IsAdded :
      (b : Backend W) (bs : List (Option (Backend W))) → IsAdded b bs (add_first bs b)
  unfolding add_first remove_first
  add_first-IsAdded b [] = refl
  add_first-IsAdded b (none ∷ bs) = (
    refl,
    refl,
    λ new.
        ap
          (λ t.
            if t
            then some (none ∷ bs)
            else elim (remove_first bs (some b)) [ none ↦ none | some cs ↦ some (some b ∷ cs) ])
          ((==_iff b.address b.address).1 refl),
  )
  add_first-IsAdded b (some x ∷ bs) = further (add_first bs b) (add_first-IsAdded b bs)
    where
      further :
          (o : Option (List (Option (Backend W))))
          → IsAdded b bs o
          → IsAdded b (some x ∷ bs) (elim o [ none ↦ none | some bs' ↦ some (some x ∷ bs') ])
      further none full = ap suc full
      further (some bs') (more, same, undo) = (
        ap suc more,
        ap suc same,
        λ new.
            ap
              (λ t. if t then some (none ∷ bs') else elim (remove_first bs' (some b)) [
                | none ↦ none
                | some cs ↦ some (some x ∷ cs)
              ])
              new.0
            ∙ ap (λ o. elim o [ none ↦ none | some cs ↦ some (some x ∷ cs) ]) (undo new.1),
      )

  -- What adding a backend returns.
  abbrev Adds : Logging W → Backend W → ℕ × Logging W → Type 0
  Adds m b (rc, m') =
      ((rc ≡ 0)
        × (in_use m'.backends ≡ suc (in_use m.backends))
        × (length m'.backends ≡ length m.backends)
        × (logging_remove_backend m' (some b) ≡ (0, m)))
      ⊎ ((in_use m.backends ≡ length m.backends) × (rc ≡ errno 28) × (m' ≡ m))

  IsAdded-Adds :
      (m : Logging W) (b : Backend W) (o : Option (List (Option (Backend W))))
      → IsNew m.backends b.address
      → IsAdded b m.backends o
      → Adds m b (elim o [ none ↦ (errno 28, m) | some bs ↦ (0, record m { backends = bs }) ])
  unfolding logging_remove_backend
  IsAdded-Adds m b none new full = inr (full, refl, refl)
  IsAdded-Adds m b (some bs) new (more, same, undo) = inl (
    refl,
    more,
    same,
    ap
        (λ o. elim o [
          | none ↦ (errno 2, record m { backends = bs })
          | some cs ↦ (0, record m { backends = cs })
        ])
        (undo new),
  )

  -- A backend that can write, and whose address is not in the table, is added where a place is
  -- free: one more is in use, the table is as long as before, and removing the backend again gives
  -- the state from before. In a full table, -ENOSPC and nothing changes.
  pub logging_add_backend_lem :
      (m : Logging W) (b : Backend W) {f : _}
      → b.write ≡ some f
      → IsNew m.backends b.address
      → let (rc, m') = logging_add_backend m (some b) in
        ((rc ≡ 0)
          × (in_use m'.backends ≡ suc (in_use m.backends))
          × (length m'.backends ≡ length m.backends)
          × (logging_remove_backend m' (some b) ≡ (0, m)))
        ⊎ ((in_use m.backends ≡ length m.backends) × (rc ≡ errno 28) × (m' ≡ m))
  unfolding logging_add_backend logging_remove_backend
  logging_add_backend_lem m b {f} writes new =
      subst (Adds m b)
        (ap
          (λ o. elim o [
            | none ↦ (errno 22, m)
            | some g ↦ elim (add_first m.backends b) [
              | none ↦ (errno 28, m)
              | some bs ↦ (0, record m { backends = bs })
            ]
          ])
          (sym writes))
        (IsAdded-Adds m b (add_first m.backends b) new (add_first-IsAdded b m.backends))
