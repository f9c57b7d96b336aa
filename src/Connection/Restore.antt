-- ===== src/Connection/Restore.antt =====
-- src/internal/connection/atomic.go: the configuration that is replaced, and the one that is restored.
use blacktemple_kn.Prelude.{
  ℕ, false, not, Option, none, some, is_some, [], ◌∷◌, ◌++◌, Text, text_eq, text_eq_cases,
  text_eq_refl, ◌≡◌, refl, sym, ap, ◌∙◌, subst, arith, Option-cases, inl, inr,
}
use blacktemple_kn.Connection.Files.{
  Os, backup_of, put_back, backed_up, replace_file, restore_backup,
}

-- What is documented of a file system: `content` is what stands at a path, `stat` says whether there
-- is something, and the other calls change no other path.
pub record IsFileSystem {W : Type 0} (os : Os W) (content : Text → W → Option Text) : Type 0 where
  pub stats : (path : Text) (w : W) → is_some (os.stat path w) ≡ not (is_some (content path w))
  pub renames :
      (a b : Text) (w : W)
      → (os.rename a b w).1 ≡ none
      → content b (os.rename a b w).0 ≡ content a w
  pub rename_others :
      (a b c : Text) (w : W)
      → text_eq a c ≡ false
      → text_eq b c ≡ false
      → content c (os.rename a b w).0 ≡ content c w
  pub remove_others :
      (a c : Text) (w : W) → text_eq a c ≡ false → content c (os.remove a w).0 ≡ content c w

text_eq-longer : (a : Text) (c : ℕ) (cs : Text) → text_eq a (a ++ c ∷ cs) ≡ false
unfolding text_eq
text_eq-longer [] c cs = refl
text_eq-longer (x ∷ xs) c cs = ground (arith, text_eq-longer xs c cs)

longer-text_eq : (a : Text) (c : ℕ) (cs : Text) → text_eq (a ++ c ∷ cs) a ≡ false
unfolding text_eq
longer-text_eq [] c cs = refl
longer-text_eq (x ∷ xs) c cs = ground (arith, longer-text_eq xs c cs)

apart_sym : (a b : Text) → text_eq a b ≡ false → text_eq b a ≡ false
apart_sym a b h = elim (text_eq_cases b a) [
  | inl (y, same) ↦ ground (arith, sym (text_eq_refl a) ∙ subst (λ x. text_eq a x ≡ false) same h)
  | inr n ↦ n
]

module _ {W : Type 0} (os : Os W) (content : Text → W → Option Text) (fs : IsFileSystem os content)
    (tmp dest old new : Text) where
  stat_lem : (path t : Text) (w : W) → content path w ≡ some t → os.stat path w ≡ none
  stat_lem path t w h = elim (Option-cases (os.stat path w)) [
    | inl n ↦ n
    | inr (e, s) ↦
        ground (arith, sym (ap is_some s) ∙ fs.stats path w ∙ ap (λ o. not (is_some o)) h)
  ]

  -- The new content is at its path, and the old one is kept.
  abbrev IsReplaced : W → Type 0
  IsReplaced w = (content dest w ≡ some new) × (content (backup_of dest) w ≡ some old)

  put_back-IsReplaced :
      (w : W)
      → text_eq tmp (backup_of dest) ≡ false
      → content tmp w ≡ some new
      → content (backup_of dest) w ≡ some old
      → (put_back os dest (os.rename tmp dest w)).1 ≡ none
      → IsReplaced (put_back os dest (os.rename tmp dest w)).0
  unfolding put_back
  put_back-IsReplaced w apart h g done = elim (Option-cases (os.rename tmp dest w).1) [
    | inl n ↦
        rw (put_back, n)
          (
            fs.renames tmp dest w n ∙ h,
            fs.rename_others tmp dest (backup_of dest) w apart (text_eq-longer dest _ _) ∙ g,
          )
    | inr (e, s) ↦ ground (arith, s, done)
  ]

  replace_file-IsReplaced :
      (w : W)
      → text_eq tmp dest ≡ false
      → text_eq tmp (backup_of dest) ≡ false
      → content tmp w ≡ some new
      → content dest w ≡ some old
      → (replace_file os tmp dest w).1 ≡ none
      → IsReplaced (replace_file os tmp dest w).0
  unfolding replace_file backed_up
  replace_file-IsReplaced w off apart h g =
      let bak = backup_of dest in
      let w1 = (os.remove bak w).0 in
      let w2 = (os.rename dest bak w1).0 in
      let there = ap is_some (stat_lem dest old w g) in
      let new1 = fs.remove_others bak tmp w (apart_sym tmp bak apart) ∙ h in
      let old1 = fs.remove_others bak dest w (longer-text_eq dest _ _) ∙ g in
      elim (Option-cases (os.rename dest bak w1).1) [
        | inl n ↦
            rw (replace_file, there, n)
              (λ done.
                put_back-IsReplaced w2 apart
                  (fs.rename_others dest bak tmp w1 (apart_sym tmp dest off)
                      (apart_sym tmp bak apart)
                    ∙ new1)
                  (fs.renames dest bak w1 n ∙ old1) done)
        | inr (e, s) ↦ rw (replace_file, there, s) (λ done. ground (arith, done))
      ]

  restore_backup_lem :
      (v : W)
      → content (backup_of dest) v ≡ some old
      → (restore_backup os dest v).1 ≡ none
      → content dest (restore_backup os dest v).0 ≡ some old
  unfolding restore_backup
  restore_backup_lem v kept =
      let there = stat_lem (backup_of dest) old v kept in
      let v1 = (os.remove dest v).0 in
      rw (restore_backup, there)
        (λ done.
          fs.renames (backup_of dest) dest v1 done
          ∙ (fs.remove_others dest (backup_of dest) v (text_eq-longer dest _ _) ∙ kept))

  -- In a file system as documented, a configuration that replaces an old one stands in its place, and
  -- the restoration of the backup, where it has no error, brings the old one back.
  pub restore_backup-replace_file :
      (w : W)
      → text_eq tmp dest ≡ false
      → text_eq tmp (backup_of dest) ≡ false
      → content tmp w ≡ some new
      → content dest w ≡ some old
      → (replace_file os tmp dest w).1 ≡ none
      → (restore_backup os dest (replace_file os tmp dest w).0).1 ≡ none
      → (content dest (replace_file os tmp dest w).0 ≡ some new)
        × (content dest (restore_backup os dest (replace_file os tmp dest w).0).0 ≡ some old)
  restore_backup-replace_file w off apart h g done back =
      let both = replace_file-IsReplaced w off apart h g done in
      (both.0, restore_backup_lem (replace_file os tmp dest w).0 both.1 back)
