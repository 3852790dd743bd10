-- ===== src/Gatekeeper/Runs.antt =====
-- The runs of the prompting loop that end well, as a relation, and what such a run does.
use reglet_hostlib.Base.{
  ◌≡◌, refl, sym, ◌∙◌, ap, ◌≢◌, ◌↔◌, Bool, true, false, ◌||◌, List, [], ◌∷◌, ◌++◌, if◌then◌else◌,
}
use reglet_hostlib.Base.Text.{Str}
use reglet_hostlib.Base.Map.{Map}
use reglet_hostlib.Grants.{GrantSet}
use reglet_hostlib.Gatekeeper.{
  CapabilityInfo, SecurityLevel, strict, standard, permissive, Request, ok, ◌>>=◌, Answer, answered,
  failed, Prompter, Abi, ask, heard, >>=_both, evaluate_broad, evaluate_plain,
  evaluate_with_security_level, Session,
}
use reglet_hostlib.Gatekeeper.Prompting.{get_plugin_name, round, settle, prompt_for_capabilities}
use reglet_hostlib.Gatekeeper.Items.{
  Item, single, request, prompt_items, items, prompt_for_capabilities-items,
}

-- The session once a request is granted.
abbrev pub with_grant : Abi → Item → Bool → List Request → Session → Session
with_grant abi x always asked s = record {
  grants = abi.merge s.grants (single x);
  should_save = s.should_save || always;
  prompted = asked;
}

module _ (abi : Abi) (level : SecurityLevel) (p : Prompter) (plugin : Str) where
  -- One item is granted: by the permissive level, or by the user, whom the strict level does not
  -- ask for a broad one.
  pub data Step (x : Item) (s t : Session) : Type 0 where
    by_level : level ≡ permissive → t ≡ with_grant abi x false s.prompted s → Step x s t
    by_user :
        (always : Bool)
        → level ≢ permissive
        → (level ≡ strict → (request plugin x).is_broad ≡ false)
        → p.prompt s.prompted (request plugin x) ≡ answered true always
        → t ≡ with_grant abi x always (s.prompted ++ request plugin x ∷ []) s
        → Step x s t

  pub data Run (t : Session) : List Item → Session → Type 0 where
    done : {s : Session} → t ≡ s → Run t [] s
    next : {x : Item} {xs : List Item} {s u : Session} → Step x s u → Run t xs u → Run t (x ∷ xs) s

  settle-ok :
      (x : Item) (s t : Session) (granted always : Bool) (asked : List Request)
      → settle abi
          (request plugin x)
          (single x)
          s
          (record { granted = granted; always = always; asked = asked })
        ≡ ok t
      → (granted ≡ true) × (t ≡ with_grant abi x always asked s)
  settle-ok x s t true always asked h = (refl, cc)
  settle-ok x s t false always asked h = cc

  Step-ask :
      (x : Item) (s t : Session) (a : Answer)
      → level ≢ permissive
      → (level ≡ strict → (request plugin x).is_broad ≡ false)
      → p.prompt s.prompted (request plugin x) ≡ a
      → (heard (s.prompted ++ request plugin x ∷ []) a
          >>= settle abi (request plugin x) (single x) s)
        ≡ ok t
      → Step x s t
  Step-ask x s t (failed m) np nb e h = cc
  Step-ask x s t (answered g a) np nb e h =
      let (granted, same) = settle-ok x s t g a (s.prompted ++ request plugin x ∷ []) h in
      by_user a np nb (e ∙ ap (λ b. answered b a) granted) same

module _ (abi : Abi) (p : Prompter) (plugin : Str) where
  -- What the level makes of an item, broad or not.
  Step-sound :
      (level : SecurityLevel) (b : Bool) (x : Item) (s t : Session)
      → (request plugin x).is_broad ≡ b
      → ((if b
            then evaluate_broad level p (request plugin x) s.prompted
            else evaluate_plain level p (request plugin x) s.prompted)
          >>= settle abi (request plugin x) (single x) s)
        ≡ ok t
      → Step abi level p plugin x s t
  unfolding ask
  Step-sound strict true x s t e h = cc
  Step-sound strict false x s t e h =
      Step-ask abi strict p plugin x s t (p.prompt s.prompted (request plugin x)) (λ n. cc) (λ n. e)
        refl h
  Step-sound standard true x s t e h =
      Step-ask abi standard p plugin x s t (p.prompt s.prompted (request plugin x)) (λ n. cc)
        (λ n. cc) refl h
  Step-sound standard false x s t e h =
      Step-ask abi standard p plugin x s t (p.prompt s.prompted (request plugin x)) (λ n. cc)
        (λ n. cc) refl h
  Step-sound permissive true x s t e h = by_level refl (cc)
  Step-sound permissive false x s t e h = by_level refl (cc)

  Step-complete :
      (level : SecurityLevel) (b : Bool) (x : Item) (s t : Session)
      → (request plugin x).is_broad ≡ b
      → Step abi level p plugin x s t
      → ((if b
            then evaluate_broad level p (request plugin x) s.prompted
            else evaluate_plain level p (request plugin x) s.prompted)
          >>= settle abi (request plugin x) (single x) s)
        ≡ ok t
  unfolding ask
  Step-complete strict b x s t e (by_level l same) = cc
  Step-complete standard b x s t e (by_level l same) = cc
  Step-complete permissive true x s t e (by_level l same) = cc
  Step-complete permissive false x s t e (by_level l same) = cc
  Step-complete permissive b x s t e (by_user always n nb answer same) = absurd (n refl)
  Step-complete strict true x s t e (by_user always n nb answer same) = cc (nb refl)
  Step-complete strict false x s t e (by_user always n nb answer same) = rw answer (cc)
  Step-complete standard true x s t e (by_user always n nb answer same) = rw answer (cc)
  Step-complete standard false x s t e (by_user always n nb answer same) = rw answer (cc)

module _ (abi : Abi) (level : SecurityLevel) (p : Prompter) (plugin : Str) where
  round_iff :
      (x : Item) (s t : Session)
      → (round abi level p plugin (request plugin x) (single x) s ≡ ok t)
        ↔ Step abi level p plugin x s t
  unfolding round evaluate_with_security_level
  round_iff x s t = (
    Step-sound abi p plugin level (request plugin x).is_broad x s t refl,
    Step-complete abi p plugin level (request plugin x).is_broad x s t refl,
  )

  Run-sound :
      (xs : List Item) (s t : Session)
      → prompt_items abi level p plugin xs s ≡ ok t
      → Run abi level p plugin t xs s
  unfolding prompt_items
  Run-sound [] s t h = done (cc)
  Run-sound (x ∷ xs) s t h =
      let (u, step, rest) =
        >>=_both (prompt_items abi level p plugin xs)
          (round abi level p plugin (request plugin x) (single x) s) h in
      next ((round_iff x s u).0 step) (Run-sound xs u t rest)

  Run-complete :
      {t : Session} {xs : List Item} {s : Session}
      → Run abi level p plugin t xs s
      → prompt_items abi level p plugin xs s ≡ ok t
  unfolding prompt_items
  Run-complete (done e) = cc
  Run-complete (next {x} {xs} {s} {u} step rest) = rw ((round_iff x s u).1 step) (Run-complete rest)

-- The four loops of the code succeed, and end in a session, exactly if a run over the missing
-- items, in their order, leads there: each item is granted by the permissive level, or by the user,
-- whom the strict level does not ask for a broad one.
pub prompt_for_capabilities_iff :
    (abi : Abi) (level : SecurityLevel) (p : Prompter) (missing : GrantSet)
    (info : Map CapabilityInfo) (s t : Session)
    → (prompt_for_capabilities abi level p missing info s ≡ ok t)
      ↔ Run abi level p (get_plugin_name info) t (items missing) s
prompt_for_capabilities_iff abi level p missing info s t =
    let same = prompt_for_capabilities-items abi level p missing info s in
    let plugin = get_plugin_name info in
    (
      λ h. Run-sound abi level p plugin (items missing) s t (sym same ∙ h),
      λ r. same ∙ Run-complete abi level p plugin r,
    )
