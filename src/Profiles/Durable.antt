-- ===== src/Profiles/Durable.antt =====
-- src/internal/profiles: the memory of the service and the file of the store agree.
use blacktemple_kn.Prelude.{
  true, false, Option, none, some, List, [], ◌∷◌, Text, ◌⊎◌, inl, inr, ◌≡◌, refl, sym, ap, ◌∙◌,
  subst, arith, if-both, if-known,
}
use blacktemple_kn.Profiles.State.{Memory, Service, clone}
use blacktemple_kn.Profiles.Store.{
  Storage, StoreFile, file, LoadError, load_contents, opened, new_service, encode_store,
}
use blacktemple_kn.Profiles.Service.{Error, Change}
use blacktemple_kn.Profiles.Transactions.{
  Result, written, commit_change, commit, Operation, outcome, operate, operate_all,
}
use blacktemple_kn.Profiles.Invariant.{IsMemory}
use blacktemple_kn.Profiles.EntryKept.{Gives}
use blacktemple_kn.Profiles.MemoryKept.{clone-same}
use blacktemple_kn.Profiles.Roundtrip.{load_contents-encode}
use blacktemple_kn.Profiles.Loading.{Loads, load_contents-Loads, no_memory-IsMemory}
use blacktemple_kn.Profiles.EachOperation.{IsFresh, AllFresh, operate_each}

-- A write either fails and leaves what was stored, or stores the file.
pub record IsAtomic {P W : Type 0} (storage : Storage P W) : Type 0 where
  pub kept :
      (f : StoreFile P) (w : W) (e : Text)
      → (storage.write f w).1 ≡ some e
      → storage.read (storage.write f w).0 ≡ storage.read w
  pub stored :
      (f : StoreFile P) (w : W)
      → (storage.write f w).1 ≡ none
      → storage.read (storage.write f w).0 ≡ file f

module _ {P W : Type 0} (storage : Storage P W) (atomic : IsAtomic storage) where
  -- The memory is in order, and where the store is in use it holds the memory.
  abbrev IsSound : Service P → W → Type 0
  IsSound s w =
      IsMemory s.memory
      × (s.persist_blocked ≡ false
          → s.has_store ≡ true
          → load_contents (storage.read w) ≡ inr s.memory)

  abbrev IsNext : Service P → W × Service P × Option Error → Type 0
  IsNext s (w', s', e) =
      IsSound s' w' × ((s'.persist_blocked ≡ s.persist_blocked) × (s'.has_store ≡ s.has_store))

  written-IsNext :
      (s : Service P) (w : W) (A : Type 0) (m : Memory P) (a : A) (p : W × Option Text)
      → IsSound s w
      → IsMemory m
      → ((e : Text) → p.1 ≡ some e → storage.read p.0 ≡ storage.read w)
      → (p.1 ≡ none → storage.read p.0 ≡ file (encode_store m))
      → IsNext s (outcome storage (written storage m a s p))
  unfolding written outcome
  written-IsNext s w A m a (v, some e) h g kept stored =
      ((h.0, λ free used. ap load_contents (kept e refl) ∙ h.1 free used), (refl, refl))
  written-IsNext s w A m a (v, none) h g kept stored =
      ((g, λ free used. ap load_contents (stored refl) ∙ load_contents-encode m g), (refl, refl))

  change-IsNext :
      (s : Service P) (w : W) (A : Type 0) (c : Change (Memory P) A)
      → IsSound s w
      → Gives IsMemory c
      → IsNext s (outcome storage (commit_change storage c s w))
  unfolding commit_change outcome
  change-IsNext s w A (inl e) h g = (h, (refl, refl))
  change-IsNext s w A (inr (m, a)) h g =
      let f = encode_store m in
      if-known (λ (r : Result P W A). IsNext s (outcome storage r)) s.has_store
        (λ used.
          written-IsNext s w A m a (storage.write f w) h g (atomic.kept f w) (atomic.stored f w))
        (λ unused. ((g, λ free used. ground (arith, unused, used)), (refl, refl)))

  commit-IsNext :
      (s : Service P) (w : W) (A : Type 0) (f : Memory P → Change (Memory P) A)
      → IsSound s w
      → ((m : Memory P) → m ≡ s.memory → IsMemory m → Gives IsMemory (f m))
      → IsNext s (outcome storage (commit storage f s w))
  unfolding commit outcome
  commit-IsNext s w A f h keeps =
      let m = clone s.memory in
      let sound = subst IsMemory (sym (clone-same s.memory)) h.0 in
      if-both (λ (r : Result P W A). IsNext s (outcome storage r)) s.persist_blocked
        (h, (refl, refl)) (change-IsNext s w A (f m) h (keeps m (clone-same s.memory) sound))

  operate-IsNext :
      (s : Service P) (w : W) (o : Operation P)
      → IsSound s w
      → IsFresh storage o s
      → IsNext s (operate storage o s w)
  operate-IsNext s w o h fresh =
      operate_each storage s w (IsNext s) (λ e. (h, (refl, refl)))
        (λ A f keeps. commit-IsNext s w A f h keeps) o fresh

  abbrev IsLater : Service P → W × Service P → Type 0
  IsLater s (w', s') =
      IsSound s' w' × ((s'.persist_blocked ≡ s.persist_blocked) × (s'.has_store ≡ s.has_store))

  operate_all-IsLater :
      (os : List (Operation P)) (s : Service P) (w : W)
      → IsSound s w
      → AllFresh storage os s w
      → IsLater s (operate_all storage os s w)
  unfolding operate_all
  operate_all-IsLater [] s w h fresh = (h, (refl, refl))
  operate_all-IsLater (o ∷ os) s w h fresh =
      let step = operate-IsNext s w o h fresh.0 in
      let r = operate storage o s w in
      let rest = operate_all-IsLater os r.1 r.0 step.0 fresh.1 in
      (rest.0, (rest.1.0 ∙ step.1.0, rest.1.1 ∙ step.1.1))

  opened-IsSound :
      (w : W) (l : LoadError ⊎ Memory P)
      → load_contents (storage.read w) ≡ l
      → Loads l
      → IsSound (opened l) w
  unfolding opened
  opened-IsSound w (inl e) loaded h = (no_memory-IsMemory, λ free used. ground (arith, free))
  opened-IsSound w (inr m) loaded h = (h, λ free used. loaded)

  opened-has_store : (l : LoadError ⊎ Memory P) → (opened l).has_store ≡ true
  unfolding opened
  opened-has_store (inl e) = refl
  opened-has_store (inr m) = refl

  opened-same :
      (s : Service P) → s.persist_blocked ≡ false → s.has_store ≡ true → opened (inr s.memory) ≡ s
  unfolding opened
  opened-same s free used =
      ap (λ b. record { memory = s.memory; has_store = true; persist_blocked = b }) (sym free)
      ∙ ap (λ b. record { memory = s.memory; has_store = b; persist_blocked = s.persist_blocked })
          (sym used)

  -- A service whose store could be read is, after any operations with new random ids, failed writes
  -- among them, just the service that is opened again on the store.
  pub operate_all-new_service :
      (os : List (Operation P)) (w : W)
      → (new_service storage true w).persist_blocked ≡ false
      → AllFresh storage os (new_service storage true w) w
      → new_service storage true (operate_all storage os (new_service storage true w) w).0
        ≡ (operate_all storage os (new_service storage true w) w).1
  unfolding new_service
  operate_all-new_service os w free fresh =
      let loaded = load_contents (storage.read w) in
      let sound = opened-IsSound w loaded refl (load_contents-Loads (storage.read w)) in
      let later = operate_all-IsLater os (opened loaded) w sound fresh in
      let still = later.1.0 ∙ free in
      let used = later.1.1 ∙ opened-has_store loaded in
      ap opened (later.0.1 still used)
      ∙ opened-same (operate_all storage os (opened loaded) w).1 still used

  abbrev IsUndone : Service P → W → W × Service P × Option Error → Type 0
  IsUndone s w (w', s', none) = Unit
  IsUndone s w (w', s', some e) = (s' ≡ s) × (storage.read w' ≡ storage.read w)

  written-IsUndone :
      (s : Service P) (w : W) (A : Type 0) (m : Memory P) (a : A) (p : W × Option Text)
      → ((e : Text) → p.1 ≡ some e → storage.read p.0 ≡ storage.read w)
      → IsUndone s w (outcome storage (written storage m a s p))
  unfolding written outcome
  written-IsUndone s w A m a (v, some e) kept = (refl, kept e refl)
  written-IsUndone s w A m a (v, none) kept = tt

  commit-IsUndone :
      (s : Service P) (w : W) (A : Type 0) (f : Memory P → Change (Memory P) A)
      → IsUndone s w (outcome storage (commit storage f s w))
  unfolding commit commit_change outcome
  commit-IsUndone s w A f =
      let Q : Result P W A → Type 0 = (λ r. IsUndone s w (outcome storage r)) in
      if-both Q s.persist_blocked (refl, refl) (changed (f (clone s.memory)))
    where
      changed :
          (c : Change (Memory P) A) → IsUndone s w (outcome storage (commit_change storage c s w))
      changed (inl e) = (refl, refl)
      changed (inr (m, a)) =
          if-both (λ (r : Result P W A). IsUndone s w (outcome storage r)) s.has_store
            (written-IsUndone s w A m a (storage.write (encode_store m) w)
              (atomic.kept (encode_store m) w))
            tt

  -- An operation with an error, a failed write among them, leaves the service and what is stored as
  -- they were; the random id, where it takes one, is new.
  pub operate_failed-same :
      (o : Operation P) (s : Service P) (w : W) (e : Error)
      → IsFresh storage o s
      → (operate storage o s w).2 ≡ some e
      → ((operate storage o s w).1 ≡ s) × (storage.read (operate storage o s w).0 ≡ storage.read w)
  operate_failed-same o s w e fresh failed =
      undone (operate storage o s w)
        (operate_each storage s w (IsUndone s w) (λ e. (refl, refl))
          (λ A f keeps. commit-IsUndone s w A f) o fresh)
        failed
    where
      undone :
          (r : W × Service P × Option Error)
          → IsUndone s w r
          → r.2 ≡ some e
          → (r.1 ≡ s) × (storage.read r.0 ≡ storage.read w)
      undone (w', s', none) h f = ground (arith, f)
      undone (w', s', some x) h f = h
