-- ===== src/Gatekeeper/Entrywise.antt =====
-- Grant sets as lists of entries: functions that do what hostfunc.GrantSet is relied on for.
use mathlib.Core.Path.{subst}
use native.Mathlib.Decide.{ℕ_discrete}
use reglet_hostlib.Base.{
  ◌≡◌, refl, sym, ◌↔◌, ◌⊎◌, inl, inr, Bool, true, false, some, List, map, [], ◌∷◌, ◌++◌,
  append_assoc, Any,
}
use reglet_hostlib.Grants.{GrantSet, empty_grants}
use reglet_hostlib.Gatekeeper.{Abi}
use reglet_hostlib.Gatekeeper.Prompting.{reads, writes, entries}
use reglet_hostlib.Gatekeeper.Items.{
  Item, network_item, read_item, write_item, env_item, exec_item, Entry, item, kv_rule, fs_items,
  items, listed, Has, single,
}
use reglet_hostlib.Gatekeeper.Entries.{IsAbi}

unfoldable pub Entry-discrete : Discrete Entry
Entry-discrete = hlevel ℕ_discrete

abbrev cons_entry : Entry → GrantSet → GrantSet
cons_entry (item (network_item r)) g = record g { network = some (r ∷ entries g.network) }
cons_entry (item (read_item path)) g = record g { fs = some (reads path ∷ entries g.fs) }
cons_entry (item (write_item path)) g = record g { fs = some (writes path ∷ entries g.fs) }
cons_entry (item (env_item v)) g = record g { env = some (v ∷ entries g.env) }
cons_entry (item (exec_item cmd)) g = record g { exec = some (cmd ∷ entries g.exec) }
cons_entry (kv_rule r) g = record g { kv = some (r ∷ entries g.kv) }

middle_iff :
    {A : Type 0} (P : A → Type 0) (xs : List A) (y : A) (ys : List A)
    → Any P (xs ++ y ∷ ys) ↔ (P y ⊎ Any P (xs ++ ys))
middle_iff P [] y ys = (λ h. h, λ h. h)
middle_iff P (x ∷ xs) y ys =
    let ih = middle_iff P xs y ys in
    (
      elim [ inl p ↦ inr (inl p) | inr a ↦ elim (ih.0 a) [ inl p ↦ inl p | inr b ↦ inr (inr b) ] ],
      elim [
        | inl p ↦ inr (ih.1 (inl p))
        | inr b ↦ elim b [ inl p ↦ inl p | inr c ↦ inr (ih.1 (inr c)) ]
      ],
    )

items_middle :
    (xs : List Item) (y : Item) (ys : List Item) (rest : List Entry) (e : Entry)
    → Any (λ z. z ≡ e) (map item (xs ++ y ∷ ys) ++ rest)
      ↔ ((item y ≡ e) ⊎ Any (λ z. z ≡ e) (map item (xs ++ ys) ++ rest))
items_middle [] y ys rest e = (λ h. h, λ h. h)
items_middle (x ∷ xs) y ys rest e =
    let ih = items_middle xs y ys rest e in
    (
      elim [ inl p ↦ inr (inl p) | inr a ↦ elim (ih.0 a) [ inl p ↦ inl p | inr b ↦ inr (inr b) ] ],
      elim [
        | inl p ↦ inr (ih.1 (inl p))
        | inr b ↦ elim b [ inl p ↦ inl p | inr c ↦ inr (ih.1 (inr c)) ]
      ],
    )

items_at :
    (xs : List Item) (y : Item) (ys : List Item) (rest : List Entry) (e : Entry) {l m : List Item}
    → l ≡ xs ++ y ∷ ys
    → m ≡ xs ++ ys
    → Any (λ z. z ≡ e) (map item l ++ rest) ↔ ((item y ≡ e) ⊎ Any (λ z. z ≡ e) (map item m ++ rest))
items_at xs y ys rest e p q = rw (p, q) (items_middle xs y ys rest e)

three_parts : (xs ys zs rest : List Item) → (xs ++ (ys ++ zs)) ++ rest ≡ xs ++ (ys ++ (zs ++ rest))
three_parts xs ys zs rest = simp (append_assoc)

cons_entry-Has :
    (x : Entry) (g : GrantSet) (e : Entry) → Has (cons_entry x g) e ↔ ((x ≡ e) ⊎ Has g e)
cons_entry-Has (item (network_item r)) g e = (λ h. h, λ h. h)
cons_entry-Has (item (read_item path)) g e =
    items_middle (map network_item (entries g.network)) (read_item path) _ _ e
cons_entry-Has (item (write_item path)) g e =
    items_middle (map network_item (entries g.network)) (write_item path) _ _ e
cons_entry-Has (item (env_item v)) g e =
    let network = map network_item (entries g.network) in
    let vars = map env_item (entries g.env) ++ map exec_item (entries g.exec) in
    items_at (network ++ fs_items (entries g.fs)) (env_item v) vars (map kv_rule (entries g.kv)) e
      (sym (append_assoc network (fs_items (entries g.fs)) (env_item v ∷ vars)))
      (sym (append_assoc network (fs_items (entries g.fs)) vars))
cons_entry-Has (item (exec_item cmd)) g e =
    let network = map network_item (entries g.network) in
    let vars = map env_item (entries g.env) in
    let cmds = map exec_item (entries g.exec) in
    items_at (network ++ (fs_items (entries g.fs) ++ vars)) (exec_item cmd) cmds
      (map kv_rule (entries g.kv)) e
      (sym (three_parts network (fs_items (entries g.fs)) vars (exec_item cmd ∷ cmds)))
      (sym (three_parts network (fs_items (entries g.fs)) vars cmds))
cons_entry-Has (kv_rule r) g e =
    middle_iff (λ z. z ≡ e) (map item (items g)) (kv_rule r) (map kv_rule (entries g.kv))

-- Each entry by itself.
abbrev from_entries : List Entry → GrantSet → GrantSet
from_entries [] g = g
from_entries (x ∷ xs) g = cons_entry x (from_entries xs g)

from_entries-Has :
    (xs : List Entry) (g : GrantSet) (e : Entry)
    → Has (from_entries xs g) e ↔ (Any (λ z. z ≡ e) xs ⊎ Has g e)
from_entries-Has [] g e = (λ h. inr h, elim [ inl n ↦ absurd n | inr h ↦ h ])
from_entries-Has (x ∷ xs) g e =
    let head = cons_entry-Has x (from_entries xs g) e in
    let ih = from_entries-Has xs g e in
    (
      λ h. elim (head.0 h) [
        | inl p ↦ inl (inl p)
        | inr t ↦ elim (ih.0 t) [ inl a ↦ inl (inr a) | inr b ↦ inr b ]
      ],
      elim [
        | inl a ↦ elim a [ inl p ↦ head.1 (inl p) | inr b ↦ head.1 (inr (ih.1 (inl b))) ]
        | inr b ↦ head.1 (inr (ih.1 (inr b)))
      ],
    )

unfoldable pub Any-decided : (xs : List Entry) (e : Entry) → Dec (Any (λ z. z ≡ e) xs)
Any-decided [] e = no (λ h. h)
Any-decided (x ∷ xs) e = elim (Entry-discrete x e) [
  | yes same ↦ yes (inl same)
  | no other ↦ elim (Any-decided xs e) [
    | yes a ↦ yes (inr a)
    | no n ↦ no (elim [ inl p ↦ other p | inr a ↦ n a ])
  ]
]

abbrev unless_listed {ℓ} : {P : Type ℓ} → Dec P → Entry → List Entry → List Entry
unless_listed (yes p) e es = es
unless_listed (no n) e es = e ∷ es

-- The entries of a list that another list lacks.
abbrev without : List Entry → List Entry → List Entry
without [] ys = []
without (x ∷ xs) ys = unless_listed (Any-decided ys x) x (without xs ys)

kept_or_listed :
    (x : Entry) (rest ys : List Entry) (e : Entry) (d : Dec (Any (λ z. z ≡ x) ys))
    → (x ≡ e) ⊎ (Any (λ z. z ≡ e) ys ⊎ Any (λ z. z ≡ e) rest)
    → Any (λ z. z ≡ e) ys ⊎ Any (λ z. z ≡ e) (unless_listed d x rest)
kept_or_listed x rest ys e (yes p) (inl same) = inl (subst (λ k. Any (λ z. z ≡ k) ys) same p)
kept_or_listed x rest ys e (yes p) (inr a) = a
kept_or_listed x rest ys e (no n) (inl same) = inr (inl same)
kept_or_listed x rest ys e (no n) (inr (inl a)) = inl a
kept_or_listed x rest ys e (no n) (inr (inr a)) = inr (inr a)

without-differs :
    (xs ys : List Entry) (e : Entry)
    → Any (λ z. z ≡ e) xs
    → Any (λ z. z ≡ e) ys ⊎ Any (λ z. z ≡ e) (without xs ys)
without-differs [] ys e a = absurd a
without-differs (x ∷ xs) ys e (inl p) =
    kept_or_listed x (without xs ys) ys e (Any-decided ys x) (inl p)
without-differs (x ∷ xs) ys e (inr a) =
    kept_or_listed x (without xs ys) ys e (Any-decided ys x) (inr (without-differs xs ys e a))

unless_listed-sub :
    {P : Type 0} (d : Dec P) (x : Entry) (rest : List Entry) (e : Entry)
    → Any (λ z. z ≡ e) (unless_listed d x rest)
    → (x ≡ e) ⊎ Any (λ z. z ≡ e) rest
unless_listed-sub (yes p) x rest e a = inr a
unless_listed-sub (no n) x rest e a = a

without-sub :
    (xs ys : List Entry) (e : Entry) → Any (λ z. z ≡ e) (without xs ys) → Any (λ z. z ≡ e) xs
without-sub [] ys e a = a
without-sub (x ∷ xs) ys e a = elim (unless_listed-sub (Any-decided ys x) x (without xs ys) e a) [
  | inl p ↦ inl p
  | inr b ↦ inr (without-sub xs ys e b)
]

abbrev none_listed : List Entry → Bool
none_listed [] = true
none_listed (x ∷ xs) = false

none_listed_lem : (xs : List Entry) (e : Entry) → none_listed xs ≡ true → ¬ Any (λ z. z ≡ e) xs
none_listed_lem [] e h a = a
none_listed_lem (x ∷ xs) e h a = cc

only_listed :
    (xs : List Entry) (e : Entry) → Has (from_entries xs empty_grants) e ↔ Any (λ z. z ≡ e) xs
only_listed xs e =
    let all = from_entries-Has xs empty_grants e in
    (λ h. elim (all.0 h) [ inl a ↦ a | inr n ↦ absurd n ], λ a. all.1 (inl a))

abbrev pub entrywise : Abi
entrywise = record {
  is_empty = λ g. none_listed (listed g);
  clone = λ g. g;
  difference = λ a b. from_entries (without (listed a) (listed b)) empty_grants;
  deduplicate = λ g. g;
  merge = λ a b. from_entries (listed b) a;
}

swapped : {S T U : Type 0} → S ↔ (T ⊎ U) → S ↔ (U ⊎ T)
swapped f = (
  λ s. elim (f.0 s) [ inl t ↦ inr t | inr u ↦ inl u ],
  elim [ inl u ↦ f.1 (inr u) | inr t ↦ f.1 (inl t) ],
)

merged :
    (g : GrantSet) (x : Item) (e : Entry)
    → Has (entrywise.merge g (single x)) e ↔ (Has g e ⊎ (item x ≡ e))
merged g (network_item r) e = swapped (cons_entry-Has (item (network_item r)) g e)
merged g (read_item path) e = swapped (cons_entry-Has (item (read_item path)) g e)
merged g (write_item path) e = swapped (cons_entry-Has (item (write_item path)) g e)
merged g (env_item v) e = swapped (cons_entry-Has (item (env_item v)) g e)
merged g (exec_item cmd) e = swapped (cons_entry-Has (item (exec_item cmd)) g e)

pub entrywise-IsAbi : IsAbi entrywise
entrywise-IsAbi = record {
  clones = λ g. refl;
  merges = merged;
  differs = λ a b e h. elim (without-differs (listed a) (listed b) e h) [
    | inl old ↦ inl old
    | inr new ↦ inr ((only_listed (without (listed a) (listed b)) e).1 new)
  ];
  requires = λ a b e h.
      without-sub (listed a) (listed b) e ((only_listed (without (listed a) (listed b)) e).0 h);
  keeps = λ g e. (λ h. h, λ h. h);
  empties = λ g e h. none_listed_lem (listed g) e h;
}
