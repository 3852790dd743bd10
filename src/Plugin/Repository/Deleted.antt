-- ===== src/Plugin/Repository/Deleted.antt =====
-- What os.RemoveAll leaves, and Find after Delete.
use reglet_hostlib.Base.{
  ◌≡◌, refl, ap, inl, inr, Bool, true, false, none, [], ◌∷◌, arith, Bool-cases,
}
use reglet_hostlib.Base.Text.{Str, text_eq, text_eq_iff}
use reglet_hostlib.Base.Map.{lookup}
use reglet_hostlib.Plugin.Repository.{Disk, Machine, inside, removed, remove_all}

module _ (machine : Machine) (path : Str) where
  lookup_kept :
      (b can_remove : Bool) (file content j : Str) (rest : Disk × Bool) (disk : Disk)
      → (b ≡ true → text_eq file j ≡ false)
      → lookup j rest.0 ≡ lookup j disk
      → lookup j (removed b can_remove file content rest).0 ≡ lookup j ((file, content) ∷ disk)
  unfolding lookup
  lookup_kept false can_remove file content j rest disk h e = ground (arith, e)
  lookup_kept true true file content j rest disk h e = rw (h refl) e
  lookup_kept true false file content j rest disk h e = ground (arith, e)

  -- A file that does not stand in the path is left.
  pub lookup-remove_all :
      (j : Str) (disk : Disk)
      → inside path j ≡ false
      → lookup j (remove_all machine path disk).0 ≡ lookup j disk
  unfolding remove_all
  lookup-remove_all j [] h = refl
  lookup-remove_all j ((file, content) ∷ disk) h =
      lookup_kept (inside path file) (machine.removes file) file content j
        (remove_all machine path disk) disk
        (λ e. elim (Bool-cases (text_eq file j)) [
          | inl same ↦ absurd (cc (ap (λ f. inside path f) ((text_eq_iff file j).0 same), e, h))
          | inr other ↦ other
        ])
        (lookup-remove_all j disk h)

  lookup_gone :
      (b can_remove : Bool) (file content j : Str) (rest : Disk × Bool)
      → (b ≡ false → text_eq file j ≡ false)
      → (rest.1 ≡ true → lookup j rest.0 ≡ none)
      → (removed b can_remove file content rest).1 ≡ true
      → lookup j (removed b can_remove file content rest).0 ≡ none
  unfolding lookup
  lookup_gone false can_remove file content j rest h e t = rw (h refl) (e t)
  lookup_gone true true file content j rest h e t = e t
  lookup_gone true false file content j rest h e t = absurd (cc t)

  -- Where RemoveAll reports no error, nothing is left in the path.
  pub remove_all_complete :
      (j : Str) (disk : Disk)
      → inside path j ≡ true
      → (remove_all machine path disk).1 ≡ true
      → lookup j (remove_all machine path disk).0 ≡ none
  unfolding remove_all lookup
  remove_all_complete j [] h t = refl
  remove_all_complete j ((file, content) ∷ disk) h t =
      lookup_gone (inside path file) (machine.removes file) file content j
        (remove_all machine path disk)
        (λ e. elim (Bool-cases (text_eq file j)) [
          | inl same ↦ absurd (cc (ap (λ f. inside path f) ((text_eq_iff file j).0 same), e, h))
          | inr other ↦ other
        ])
        (remove_all_complete j disk h) t
