-- ===== src/Gatekeeper/Prompting.antt =====
-- The loops of promptForCapabilities in capability/gatekeeper/gatekeeper.go.
use reglet_hostlib.Base.{
  Bool, false, ◌&&◌, ◌||◌, Option, none, some, List, [], ◌∷◌, ◌++◌, if◌then◌else◌,
}
use reglet_hostlib.Base.Text.{Str, codes, text_eq}
use reglet_hostlib.Base.Map.{Map}
use reglet_hostlib.Grants.{GrantSet, NetworkRule, FsRule, empty_grants}
use reglet_hostlib.Gatekeeper.{
  SecurityLevel, network_rule, fs_rule, text_rule, Request, CapabilityInfo, denied_by_user, Result,
  ok, err, ◌>>=◌, Prompter, Abi, Verdict, evaluate_with_security_level, Session,
}

-- The text of a slice under %v.
unfoldable pub join_words : List Str → Str
join_words [] = []
join_words (w ∷ []) = w
join_words (w ∷ v ∷ ws) = w ++ b' ' ∷ join_words (v ∷ ws)

abbrev pub show_slice : List Str → Str
show_slice ws = b'[' ∷ (join_words ws ++ b']' ∷ [])

-- Whether a slice has the one entry "*".
unfoldable pub is_star : List Str → Bool
is_star [] = false
is_star (w ∷ []) = text_eq w (codes "*")
is_star (w ∷ v ∷ ws) = false

-- getPluginName
unfoldable pub get_plugin_name : Map CapabilityInfo → Str
get_plugin_name [] = []
get_plugin_name ((k, v) ∷ []) = v.plugin_name
get_plugin_name (a ∷ b ∷ rest) = []

abbrev pub is_broad_path : Str → Bool
is_broad_path path = text_eq path (codes "/**") || text_eq path (codes "**")

abbrev pub reads : Str → FsRule
reads path = record { read = path ∷ []; write = [] }

abbrev pub writes : Str → FsRule
writes path = record { read = []; write = path ∷ [] }

-- The requests of the loops.
module _ (plugin : Str) where
  abbrev pub network_request : NetworkRule → Request
  network_request rule = record {
    plugin_name = plugin;
    kind = codes "network";
    rule = network_rule rule;
    description = codes "network " ++ (show_slice rule.hosts ++ b':' ∷ show_slice rule.ports);
    is_broad = is_star rule.hosts && is_star rule.ports;
  }

  abbrev pub read_request : Str → Request
  read_request path = record {
    plugin_name = plugin;
    kind = codes "fs";
    rule = fs_rule (reads path);
    description = codes "fs read:" ++ path;
    is_broad = is_broad_path path;
  }

  abbrev pub write_request : Str → Request
  write_request path = record {
    plugin_name = plugin;
    kind = codes "fs";
    rule = fs_rule (writes path);
    description = codes "fs write:" ++ path;
    is_broad = is_broad_path path;
  }

  abbrev pub env_request : Str → Request
  env_request v = record {
    plugin_name = plugin;
    kind = codes "env";
    rule = text_rule v;
    description = codes "env " ++ v;
    is_broad = text_eq v (codes "*");
  }

  abbrev pub exec_request : Str → Request
  exec_request cmd = record {
    plugin_name = plugin;
    kind = codes "exec";
    rule = text_rule cmd;
    description = codes "exec " ++ cmd;
    is_broad = text_eq cmd (codes "**") || text_eq cmd (codes "*");
  }

-- The end of every round of the loops.
abbrev pub settle : Abi → Request → GrantSet → Session → Verdict → Result Session
settle abi req to_merge s v =
    if v.granted
    then ok (record {
      grants = abi.merge s.grants to_merge;
      should_save = s.should_save || v.always;
      prompted = v.asked;
    })
    else err (denied_by_user req.description)

module _ (abi : Abi) (level : SecurityLevel) (p : Prompter) (plugin : Str) where
  unfoldable pub round : Request → GrantSet → Session → Result Session
  round req to_merge s =
      evaluate_with_security_level level p req s.prompted >>= settle abi req to_merge s

  unfoldable pub prompt_for_network : List NetworkRule → Session → Result Session
  prompt_for_network [] s = ok s
  prompt_for_network (rule ∷ rules) s =
      round (network_request plugin rule) (record empty_grants { network = some (rule ∷ []) }) s
      >>= prompt_for_network rules

  unfoldable pub prompt_for_reads : List Str → Session → Result Session
  prompt_for_reads [] s = ok s
  prompt_for_reads (path ∷ paths) s =
      round (read_request plugin path) (record empty_grants { fs = some (reads path ∷ []) }) s
      >>= prompt_for_reads paths

  unfoldable pub prompt_for_writes : List Str → Session → Result Session
  prompt_for_writes [] s = ok s
  prompt_for_writes (path ∷ paths) s =
      round (write_request plugin path) (record empty_grants { fs = some (writes path ∷ []) }) s
      >>= prompt_for_writes paths

  unfoldable pub prompt_for_fs : List FsRule → Session → Result Session
  prompt_for_fs [] s = ok s
  prompt_for_fs (rule ∷ rules) s =
      prompt_for_reads rule.read s >>= prompt_for_writes rule.write >>= prompt_for_fs rules

  unfoldable pub prompt_for_env : List Str → Session → Result Session
  prompt_for_env [] s = ok s
  prompt_for_env (v ∷ vs) s =
      round (env_request plugin v) (record empty_grants { env = some (v ∷ []) }) s
      >>= prompt_for_env vs

  unfoldable pub prompt_for_exec : List Str → Session → Result Session
  prompt_for_exec [] s = ok s
  prompt_for_exec (cmd ∷ cmds) s =
      round (exec_request plugin cmd) (record empty_grants { exec = some (cmd ∷ []) }) s
      >>= prompt_for_exec cmds

-- A nil capability has nothing to loop over.
abbrev pub entries : {A : Type 0} → Option (List A) → List A
entries none = []
entries (some xs) = xs

-- promptForCapabilities
unfoldable pub prompt_for_capabilities :
    Abi → SecurityLevel → Prompter → GrantSet → Map CapabilityInfo → Session → Result Session
prompt_for_capabilities abi level p missing info s =
    let plugin = get_plugin_name info in
    prompt_for_network abi level p plugin (entries missing.network) s
    >>= prompt_for_fs abi level p plugin (entries missing.fs)
    >>= prompt_for_env abi level p plugin (entries missing.env)
    >>= prompt_for_exec abi level p plugin (entries missing.exec)
