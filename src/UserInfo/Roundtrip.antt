-- ===== src/UserInfo/Roundtrip.antt =====
-- `parseUsername` of namespacelister_subject.go undoes `FullName`.
use Prim.Native.String
use text.Mathlib.Text.{starts_with}
use text.Mathlib.TextLemmas.{nil-append, cons-append, append_assoc}
use text.Mathlib.TextPositions.{starts_with-append}
use namespace_lister.Base.{Char, ◌≡◌, ap, ◌∙◌, String, false, [], ◌∷◌, arith, ok, string_eq, nat_eq}
use namespace_lister.Base.Text.{split_on, split_on-append, split_on-Lacks, Lacks}
use namespace_lister.Lister.{parse_username, service_account_prefix}
use namespace_lister.UserInfo.{
  user_info_from_service_account, user_info_from_username, as_subject, full_name,
}

abbrev colon : Char
colon = ":"

colon-append : (s : String) → String.◌++◌ ":" s ≡ String.◌∷◌ colon s
colon-append s = cons-append colon String.[] s ∙ ap (String.◌∷◌ colon) (nil-append s)

-- The parts of a service account's name, each behind the one before it and a colon.
parts : String → String → String
parts namespace name = String.◌++◌ "system" (
    String.◌∷◌ colon (
      String.◌++◌ "serviceaccount"
        (String.◌∷◌ colon (String.◌++◌ namespace (String.◌∷◌ colon name)))))

prefix-append :
    (s : String)
    → String.◌++◌ service_account_prefix s
      ≡ String.◌++◌ "system" (String.◌∷◌ colon (String.◌++◌ "serviceaccount" (String.◌∷◌ colon s)))
prefix-append s =
    append_assoc "system" ":serviceaccount:" s
    ∙ ap (String.◌++◌ "system") (
        append_assoc ":" "serviceaccount:" s
        ∙ colon-append (String.◌++◌ "serviceaccount:" s)
        ∙ ap (String.◌∷◌ colon) (
            append_assoc "serviceaccount" ":" s
            ∙ ap (String.◌++◌ "serviceaccount") (colon-append s)))

parts-eq :
    (namespace name : String)
    → String.◌++◌ service_account_prefix (String.◌++◌ namespace (String.◌++◌ ":" name))
      ≡ parts namespace name
unfolding parts
parts-eq namespace name =
    ap (λ s. String.◌++◌ service_account_prefix (String.◌++◌ namespace s)) (colon-append name)
    ∙ prefix-append (String.◌++◌ namespace (String.◌∷◌ colon name))

split_parts :
    (namespace name : String)
    → Lacks b':' namespace
    → Lacks b':' name
    → split_on b':' (parts namespace name) ≡ "system" ∷ "serviceaccount" ∷ namespace ∷ name ∷ []
unfolding parts
split_parts namespace name h k = rw (split_on-append colon "system" _ (omega arith)) (
    rw (split_on-append colon "serviceaccount" _ (omega arith))
      (rw (split_on-append colon namespace name h) (rw (split_on-Lacks b':' name k))))

-- A service account's full name is parsed as the subject that it has in a role binding, if neither
-- its namespace nor its name has a colon.
pub parse_username-full_name_account :
    (namespace name token : String)
    → Lacks b':' namespace
    → Lacks b':' name
    → let u = user_info_from_service_account namespace name token in
      parse_username (full_name u) ≡ ok (as_subject u)
unfolding parse_username full_name as_subject user_info_from_service_account string_eq
parse_username-full_name_account namespace name token h k =
    rw (starts_with-append service_account_prefix (String.◌++◌ namespace (String.◌++◌ ":" name)))
      (rw (parts-eq namespace name) (rw (split_parts namespace name h k)))

-- The full name of a user made from a username that does not begin as a service account's is parsed
-- as the subject that the user has in a role binding.
parse_username-full_name_user :
    (username : String)
    → starts_with username service_account_prefix ≡ false
    → let u = user_info_from_username username in parse_username (full_name u) ≡ ok (as_subject u)
unfolding parse_username full_name as_subject user_info_from_username string_eq
parse_username-full_name_user username h = rw h
