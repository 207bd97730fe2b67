-- ===== src/Program/Panics.antt =====
-- Which requests panic once the program is up.
use text.Mathlib.Text.{starts_with}
use namespace_lister.Base.Text.{occurrences}
use namespace_lister.Base.{
  string_eq, arith, refl, ◌⊎◌, inl, inr, String, List, ◌<◌, ◌≡◌, ◌↔◌, true, Option, none, some, ok,
  panic, Fault, index_out_of_range, ◌>>=◌, Iteration,
}
use namespace_lister.Kube.{core_version, subject_eq}
use namespace_lister.AccessCache.{list_keys}
use namespace_lister.Http.{
  Request, User, Context, Writer, no_reply, write_header, write, set_header, add_header, log_entry,
}
use namespace_lister.Http.Authn.{AuthRequest}
use namespace_lister.Http.Handlers.{Encoding, write_reply, write_data, http_error}
use namespace_lister.Http.Server.{Instruments, api_server}
use namespace_lister.Http.Server.Laws.{IsTransparent, AsksNamespaces, api_server_authenticated}
use namespace_lister.Lister.{
  NamespaceList, success, SubjectNamespacesLister, subjects, list_namespaces,
  new_subject_namespace_lister, service_account_prefix,
}
use namespace_lister.System.{Resources}
use namespace_lister.Program.{up, Program, Reach}
use namespace_lister.Program.Serving.{Reach-panic_iff, same_fault, Outcome-cases}

-- A lister over the access cache never reports a failure.
list_namespaces_cases :
    (lister : SubjectNamespacesLister) (username : String) (groups : List String)
    → ((nn : NamespaceList) × (list_namespaces lister username groups ≡ ok (success nn)))
      ⊎ ((f : Fault) × (list_namespaces lister username groups ≡ panic f))
unfolding list_namespaces
list_namespaces_cases lister username groups = elim (Outcome-cases (subjects username groups)) [
  | inr (f, e) ↦ inr (f, rw e refl)
  | inl (subs, e) ↦ elim (Outcome-cases (lister subs)) [
    | inr (f, h) ↦ inr (f, rw (e, h) refl)
    | inl (nn, h) ↦
        inl (
          record { kind = "NamespaceList"; api_version = core_version; items = nn },
          rw (e, h) refl,
        )
  ]
]

-- What is made of a list does not panic.
write_reply-success :
    (enc : Encoding) (nn : NamespaceList)
    → (w : Writer) × (write_reply enc (success nn) no_reply ≡ ok w)
unfolding write_reply write_data http_error write_header write set_header add_header log_entry
write_reply-success enc nn = elim (Outcome-cases (write_reply enc (success nn) no_reply)) [
  | inl answered ↦ answered
  | inr (f, h) ↦ absurd (ground (arith, h))
]

served-panic :
    (enc : Encoding) (lister : SubjectNamespacesLister) (username : String) (groups : List String)
    (g : Writer → Writer) (f : Fault)
    → ((list_namespaces lister username groups >>= λ reply.
          write_reply enc reply no_reply >>= λ w. ok (g w))
        ≡ panic f)
      ↔ (list_namespaces lister username groups ≡ panic f)
served-panic enc lister username groups g f = elim (list_namespaces_cases lister username groups) [
  | inl (nn, e) ↦
      let (w, h) = write_reply-success enc nn in
      rw (e, h) ((λ k. absurd (cc k)), (λ k. absurd (cc k)))
  | inr (h, e) ↦ rw e (same_fault, same_fault)
]

-- Once the program has come up, whatever the goroutines do meanwhile and in whatever order maps are
-- visited, a request for the namespaces that is authenticated as a user panics exactly if the name of
-- the user begins as a service account's does and has fewer than three colons, and then with an index
-- out of range: no such request meets the nil pointer of a cache that was never filled, and nothing
-- behind the lister panics. The condition: instrumenting a handler does not change its answer.
pub api_server-panic_iff :
    {res : Resources} {p : Program}
    → Reach res p
    → p.phase ≡ up
    → (enc : Encoding) (reg : Option Instruments) → IsTransparent reg
    → (ctx : Context) (r : Request) → AsksNamespaces r
    → (ar : AuthRequest) (u : User) → (ar r).error ≡ none
    → (ar r).authenticated ≡ true
    → (ar r).response ≡ some u
    → (it : Iteration) (f : Fault)
    → (api_server enc reg ar (new_subject_namespace_lister it p.machine.cache) ctx r no_reply
        ≡ panic f)
      ↔ ((f ≡ index_out_of_range)
          × (starts_with u.name service_account_prefix ≡ true)
          × (occurrences b':' u.name < 3))
unfolding new_subject_namespace_lister
api_server-panic_iff {p = p} h e enc reg transparent ctx r asks ar u fine known given it f =
    let lister = new_subject_namespace_lister it p.machine.cache in
    let (to, from) = Reach-panic_iff h e it u.name u.groups f in
    let (back, on) = served-panic enc (list_keys it p.machine.cache) u.name u.groups _ f in
    rw (api_server_authenticated enc reg transparent ctx r asks ar lister u fine known given)
      ((λ k. to (back k)), (λ k. on (from k)))
