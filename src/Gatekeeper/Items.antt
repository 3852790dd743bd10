-- ===== src/Gatekeeper/Items.antt =====
-- The items of a grant set, and the prompting loops as one loop over the items that are missing.
use reglet_hostlib.Base.{◌≡◌, refl, sym, ap, fun_ext, ◌∙◌, some, List, [], ◌∷◌, ◌++◌, map, Any}
use reglet_hostlib.Base.Text.{Str}
use reglet_hostlib.Base.Map.{Map}
use reglet_hostlib.Grants.{GrantSet, NetworkRule, FsRule, KvRule, empty_grants}
use reglet_hostlib.Gatekeeper.{
  SecurityLevel, Request, CapabilityInfo, Result, ok, err, ◌>>=◌, Prompter, Abi, Session,
}
use reglet_hostlib.Gatekeeper.Prompting.{
  get_plugin_name, round, network_request, prompt_for_network, reads, writes, read_request,
  write_request, prompt_for_reads, prompt_for_writes, prompt_for_fs, env_request, prompt_for_env,
  exec_request, prompt_for_exec, entries, prompt_for_capabilities,
}

pub data Item : Type 0 where
  network_item : NetworkRule → Item
  read_item : Str → Item
  write_item : Str → Item
  env_item : Str → Item
  exec_item : Str → Item

-- What a grant set can grant.
pub data Entry : Type 0 where
  item : Item → Entry
  kv_rule : KvRule → Entry

abbrev pub fs_items : List FsRule → List Item
fs_items [] = []
fs_items (rule ∷ rules) = map read_item rule.read ++ (map write_item rule.write ++ fs_items rules)

-- What the user can be prompted for, in the order of the loops; key-value grants are left out.
abbrev pub items : GrantSet → List Item
items g =
    map network_item (entries g.network)
    ++ (fs_items (entries g.fs) ++ (map env_item (entries g.env) ++ map exec_item (entries g.exec)))

abbrev pub listed : GrantSet → List Entry
listed g = map item (items g) ++ map kv_rule (entries g.kv)

abbrev pub Has : GrantSet → Entry → Type 0
Has g x = Any (λ y. y ≡ x) (listed g)

abbrev pub single : Item → GrantSet
single (network_item rule) = record empty_grants { network = some (rule ∷ []) }
single (read_item path) = record empty_grants { fs = some (reads path ∷ []) }
single (write_item path) = record empty_grants { fs = some (writes path ∷ []) }
single (env_item v) = record empty_grants { env = some (v ∷ []) }
single (exec_item cmd) = record empty_grants { exec = some (cmd ∷ []) }

module _ (plugin : Str) where
  abbrev pub request : Item → Request
  request (network_item rule) = network_request plugin rule
  request (read_item path) = read_request plugin path
  request (write_item path) = write_request plugin path
  request (env_item v) = env_request plugin v
  request (exec_item cmd) = exec_request plugin cmd

>>=_assoc :
    {A B C : Type 0} (r : Result A) (f : A → Result B) (g : B → Result C)
    → (r >>= f >>= g) ≡ (r >>= λ a. f a >>= g)
>>=_assoc (ok a) f g = refl
>>=_assoc (err e) f g = refl

module _ (abi : Abi) (level : SecurityLevel) (p : Prompter) (plugin : Str) where
  -- One loop over all items.
  unfoldable pub prompt_items : List Item → Session → Result Session
  prompt_items [] s = ok s
  prompt_items (x ∷ xs) s =
      round abi level p plugin (request plugin x) (single x) s >>= prompt_items xs

  prompt_items-append :
      (xs ys : List Item) (s : Session)
      → prompt_items (xs ++ ys) s ≡ (prompt_items xs s >>= prompt_items ys)
  unfolding prompt_items
  prompt_items-append [] ys s = refl
  prompt_items-append (x ∷ xs) ys s =
      ap (λ k. round abi level p plugin (request plugin x) (single x) s >>= k)
        (fun_ext (prompt_items-append xs ys))
      ∙ sym (
          >>=_assoc (round abi level p plugin (request plugin x) (single x) s) (prompt_items xs)
            (prompt_items ys))

  network_items :
      (rules : List NetworkRule) (s : Session)
      → prompt_for_network abi level p plugin rules s ≡ prompt_items (map network_item rules) s
  unfolding prompt_items prompt_for_network
  network_items [] s = refl
  network_items (rule ∷ rules) s =
      ap
        (λ k.
          round abi level p plugin (network_request plugin rule) (single (network_item rule)) s
          >>= k)
        (fun_ext (network_items rules))

  read_items :
      (paths : List Str) (s : Session)
      → prompt_for_reads abi level p plugin paths s ≡ prompt_items (map read_item paths) s
  unfolding prompt_items prompt_for_reads
  read_items [] s = refl
  read_items (path ∷ paths) s =
      ap
        (λ k. round abi level p plugin (read_request plugin path) (single (read_item path)) s >>= k)
        (fun_ext (read_items paths))

  write_items :
      (paths : List Str) (s : Session)
      → prompt_for_writes abi level p plugin paths s ≡ prompt_items (map write_item paths) s
  unfolding prompt_items prompt_for_writes
  write_items [] s = refl
  write_items (path ∷ paths) s =
      ap
        (λ k.
          round abi level p plugin (write_request plugin path) (single (write_item path)) s >>= k)
        (fun_ext (write_items paths))

  env_items :
      (vs : List Str) (s : Session)
      → prompt_for_env abi level p plugin vs s ≡ prompt_items (map env_item vs) s
  unfolding prompt_items prompt_for_env
  env_items [] s = refl
  env_items (v ∷ vs) s =
      ap (λ k. round abi level p plugin (env_request plugin v) (single (env_item v)) s >>= k)
        (fun_ext (env_items vs))

  exec_items :
      (cmds : List Str) (s : Session)
      → prompt_for_exec abi level p plugin cmds s ≡ prompt_items (map exec_item cmds) s
  unfolding prompt_items prompt_for_exec
  exec_items [] s = refl
  exec_items (cmd ∷ cmds) s =
      ap (λ k. round abi level p plugin (exec_request plugin cmd) (single (exec_item cmd)) s >>= k)
        (fun_ext (exec_items cmds))

  fs_items_lem :
      (rules : List FsRule) (s : Session)
      → prompt_for_fs abi level p plugin rules s ≡ prompt_items (fs_items rules) s
  unfolding prompt_for_fs
  fs_items_lem [] s = unfold prompt_items in refl
  fs_items_lem (rule ∷ rules) s =
      rw
        (
          fun_ext (read_items rule.read),
          fun_ext (write_items rule.write),
          fun_ext (fs_items_lem rules),
        )
        (rw
          (
            prompt_items-append (map read_item rule.read)
                (map write_item rule.write ++ fs_items rules) s,
            fun_ext (prompt_items-append (map write_item rule.write) (fs_items rules)),
          )
          (>>=_assoc (prompt_items (map read_item rule.read) s)
            (prompt_items (map write_item rule.write)) (prompt_items (fs_items rules))))

-- The four loops as one.
pub prompt_for_capabilities-items :
    (abi : Abi) (level : SecurityLevel) (p : Prompter) (g : GrantSet) (info : Map CapabilityInfo)
    (s : Session)
    → prompt_for_capabilities abi level p g info s
      ≡ prompt_items abi level p (get_plugin_name info) (items g) s
unfolding prompt_for_capabilities
prompt_for_capabilities-items abi level p g info s =
    let plugin = get_plugin_name info in
    rw
      (
        fun_ext (network_items abi level p plugin (entries g.network)),
        fun_ext (fs_items_lem abi level p plugin (entries g.fs)),
        fun_ext (env_items abi level p plugin (entries g.env)),
        fun_ext (exec_items abi level p plugin (entries g.exec)),
      )
      (rw
        (
          prompt_items-append abi level p plugin (map network_item (entries g.network))
              (fs_items (entries g.fs)
                ++ (map env_item (entries g.env) ++ map exec_item (entries g.exec)))
              s,
          fun_ext (
              prompt_items-append abi level p plugin (fs_items (entries g.fs))
                (map env_item (entries g.env) ++ map exec_item (entries g.exec))),
          fun_ext (
              prompt_items-append abi level p plugin (map env_item (entries g.env))
                (map exec_item (entries g.exec))),
        )
        (simp (>>=_assoc)))
