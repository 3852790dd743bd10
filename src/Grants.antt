-- ===== src/Grants.antt =====
-- The data of package hostfunc of github.com/reglet-dev/reglet-abi that the host reads: the fields
-- that policy/policy.go and capability/*.go name. A nil capability is `none`. The methods of
-- `GrantSet` are that package's and are parameters where a component calls them.
use reglet_hostlib.Base.{List, Option, none}
use reglet_hostlib.Base.Text.{Str}
use reglet_hostlib.Base.Int.{ℤ}

pub record NetworkRule : Type 0 where
  pub hosts : List Str
  pub ports : List Str

pub record FsRule : Type 0 where
  pub read : List Str
  pub write : List Str

pub record KvRule : Type 0 where
  pub operation : Str
  pub keys : List Str

pub record GrantSet : Type 0 where
  pub network : Option (List NetworkRule)
  pub fs : Option (List FsRule)
  pub env : Option (List Str)
  pub exec : Option (List Str)
  pub kv : Option (List KvRule)

-- &hostfunc.GrantSet{}
abbrev pub empty_grants : GrantSet
empty_grants = record { network = none; fs = none; env = none; exec = none; kv = none }

pub record NetworkRequest : Type 0 where
  pub host : Str
  pub port : ℤ

pub record FileSystemRequest : Type 0 where
  pub operation : Str
  pub path : Str

pub record EnvironmentRequest : Type 0 where
  pub variable : Str

pub record ExecCapabilityRequest : Type 0 where
  pub command : Str

pub record KeyValueRequest : Type 0 where
  pub operation : Str
  pub key : Str
