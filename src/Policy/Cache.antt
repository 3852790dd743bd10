-- ===== src/Policy/Cache.antt =====
-- The cache of compiled grant sets (`getCompiled`): it is transparent while the grant sets stay as
-- they are, and it hides a later change of a grant set that is shared by pointer.
use reglet_hostlib.Base.{
  ◌≡◌, refl, sym, ◌∙◌, inl, inr, Bool, true, false, ◌++◌, Option, none, some, [], ◌∷◌, arith,
  ==_iff, Option-cases, Bool-cases, if◌then◌else◌,
}
use reglet_hostlib.Policy.{CompiledGrantSet, compile}
use reglet_hostlib.Policy.Engine.{
  World, Engine, Heap, Pointer, Denied, load, get_compiled, evaluate, check,
}

-- Every cached value is the compilation of what its pointer holds.
pub record IsCoherent (w : World) (e : Engine) : Type 0 where
  pub at :
      (p : Pointer) (c : CompiledGrantSet) → load e.cache p ≡ some c → c ≡ compile w.ds (w.heap p)

module _ (w : World) where
  -- What a lookup returns, and that it keeps the cache coherent.
  pub get_compiled_lem :
      (p : Pointer) (e : Engine)
      → IsCoherent w e
      → ((get_compiled w (some p) e).0 ≡ some (compile w.ds (w.heap p)))
        × IsCoherent w (get_compiled w (some p) e).1
  unfolding get_compiled
  get_compiled_lem p e h = elim (Option-cases (load e.cache p)) [
    | inl miss ↦
        rw miss
          (refl, record { at = λ q c found. unfold load in ground (arith, h.at q c, ==_iff p q) })
    | inr (c, hit) ↦ rw hit (ground (arith, h.at p c hit), h)
  ]

  pub denials-get_compiled :
      (g : Option Pointer) (e : Engine) → (get_compiled w g e).1.denials ≡ e.denials
  unfolding get_compiled
  denials-get_compiled none e = refl
  denials-get_compiled (some p) e = ground arith

  pub evaluate_lem :
      (decide : CompiledGrantSet → Bool) (p : Pointer) (e : Engine)
      → IsCoherent w e
      → (evaluate w decide (some p) e).0 ≡ decide (compile w.ds (w.heap p))
  unfolding evaluate
  evaluate_lem decide p e h = rw ((get_compiled_lem p e h).0, evaluate)

  pub evaluate-IsCoherent :
      (decide : CompiledGrantSet → Bool) (p : Pointer) (e : Engine)
      → IsCoherent w e
      → IsCoherent w (evaluate w decide (some p) e).1
  unfolding evaluate
  evaluate-IsCoherent decide p e h = (get_compiled_lem p e h).1

  denials-evaluate :
      (decide : CompiledGrantSet → Bool) (g : Option Pointer) (e : Engine)
      → (evaluate w decide g e).1.denials ≡ e.denials
  unfolding evaluate
  denials-evaluate decide g e = denials-get_compiled g e

  -- A check answers as the compiled rules decide, keeps the cache coherent, and reports to the
  -- handler exactly when it denies.
  pub record Checked (decided : Bool) (report : Denied) (e : Engine) (r : Bool × Engine)
      : Type 0 where
    pub answer : r.0 ≡ decided
    pub coherent : IsCoherent w r.1
    pub reported : r.1.denials ≡ (if decided then e.denials else e.denials ++ report ∷ [])

  -- The frame, by the answer of the evaluation.
  check_allowed :
      (run : Engine → Bool × Engine) (report : Denied) (e : Engine)
      → (run e).0 ≡ true
      → check run report e ≡ (true, (run e).1)
  unfolding check
  check_allowed run report e h = rw h

  check_denied :
      (run : Engine → Bool × Engine) (report : Denied) (e : Engine)
      → (run e).0 ≡ false
      → check run report e
        ≡ (false, record (run e).1 { denials = (run e).1.denials ++ report ∷ [] })
  unfolding check
  check_denied run report e h = rw h

  pub check_lem :
      (decide : CompiledGrantSet → Bool) (report : Denied) (p : Pointer) (e : Engine)
      → IsCoherent w e
      → Checked
          (decide (compile w.ds (w.heap p)))
          report
          e
          (check (evaluate w decide (some p)) report e)
  check_lem decide report p e h = elim (Bool-cases (decide (compile w.ds (w.heap p)))) [
    | inl d ↦
        rw (check_allowed run report e (evaluate_lem decide p e h ∙ d), d)
          (record {
            answer = refl;
            coherent = evaluate-IsCoherent decide p e h;
            reported = denials-evaluate decide (some p) e;
          })
    | inr d ↦
        rw (check_denied run report e (evaluate_lem decide p e h ∙ d), d)
          (record {
            answer = refl;
            coherent = record { at = (evaluate-IsCoherent decide p e h).at };
            reported = rw (denials-evaluate decide (some p) e);
          })
  ]
    where
      run : Engine → Bool × Engine
      run = evaluate w decide (some p)

-- Nil grants: every check denies and reports, and nothing is cached.
pub check_nil :
    (w : World) (decide : CompiledGrantSet → Bool) (report : Denied) (e : Engine)
    → check (evaluate w decide none) report e
      ≡ (false, record e { denials = e.denials ++ report ∷ [] })
unfolding check evaluate get_compiled
check_nil w decide report e = refl

evaluate_hit :
    (w : World) (decide : CompiledGrantSet → Bool) (p : Pointer) (e : Engine) {c : CompiledGrantSet}
    → load e.cache p ≡ some c
    → evaluate w decide (some p) e ≡ (decide c, e)
unfolding evaluate get_compiled
evaluate_hit w decide p e hit = rw hit

load-get_compiled :
    (w : World) (p : Pointer) (e : Engine)
    → (c : CompiledGrantSet) × (load (get_compiled w (some p) e).1.cache p ≡ some c)
unfolding get_compiled
load-get_compiled w p e = elim (Option-cases (load e.cache p)) [
  | inl miss ↦ (compile w.ds (w.heap p), rw miss (unfold load in ground (arith, ==_iff p p)))
  | inr (c, hit) ↦ (c, rw (hit, hit))
]

-- Once the policy has looked a grant set up, what the pointer to it holds later makes no difference
-- to any decision.
pub stale_cache :
    (w : World) (changed : Heap) (decide : CompiledGrantSet → Bool) (p : Pointer) (e : Engine)
    → evaluate (record w { heap = changed }) decide (some p) (get_compiled w (some p) e).1
      ≡ evaluate w decide (some p) (get_compiled w (some p) e).1
stale_cache w changed decide p e =
    let (c, hit) = load-get_compiled w p e in
    evaluate_hit (record w { heap = changed }) decide p _ hit ∙ sym (evaluate_hit w decide p _ hit)
