-- ===== src/Release/Policies/Update.antt =====
-- What `update_policy` answers and stores.
use sarra.Common.{String, List, map, if◌then◌else◌}
use sarra.Release.{Policy, Store}
use sarra.Release.Environments.{find, is_policy_of}
use sarra.Release.Policies.{Changes, has_changes, changed, policy_or_default}

-- The policy that a project has or would be given
abbrev pub lookup : String → String → List Policy → Policy
lookup q now xs = policy_or_default q now (find (is_policy_of q) xs)

abbrev changed_store : String → Changes → String → Store → Store
changed_store q c now t =
    if has_changes c then record t { policies = map (changed q c now) t.policies } else t
