-- ===== src/UserInfo.antt =====
-- acceptance/pkg/context/user_info.go: how a user of the acceptance tests is named in requests and in
-- role bindings.
use Prim.Native.String
use namespace_lister.Base.{String, List, [], ◌==◌, string_eq, if◌then◌else◌}
use namespace_lister.Kube.{Subject, rbac_group_name}
pub mod Roundtrip

-- `UserInfo`
pub record UserInfo : Type 0 where
  pub token : String
  pub namespace : String
  pub name : String
  pub api_group : String
  pub kind : String
  pub groups : List String

-- `UserInfoFromServiceAccount`: of the account it reads the namespace and the name, of the token
-- request the token
unfoldable pub user_info_from_service_account : (namespace name token : String) → UserInfo
user_info_from_service_account namespace name token = record {
  token = token;
  namespace = namespace;
  name = name;
  api_group = "";
  kind = "ServiceAccount";
  groups = [];
}

-- `UserInfoFromUsername`
unfoldable pub user_info_from_username : String → UserInfo
user_info_from_username username = record {
  token = "";
  namespace = "";
  name = username;
  api_group = rbac_group_name;
  kind = "User";
  groups = [];
}

-- `AsSubject`
unfoldable pub as_subject : UserInfo → Subject
as_subject u = record {
  kind = u.kind;
  api_group = u.api_group;
  name = u.name;
  namespace = u.namespace;
}

-- `FullName`
unfoldable pub full_name : UserInfo → String
full_name u =
    if u.kind == "ServiceAccount"
    then String.◌++◌ "system:serviceaccount:" (String.◌++◌ u.namespace (String.◌++◌ ":" u.name))
    else u.name
