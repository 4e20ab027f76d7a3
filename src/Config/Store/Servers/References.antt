-- ===== src/Config/Store/Servers/References.antt =====
-- No write on servers leaves a rule naming a server that is not there.
use llm_api_router.Prelude.{
  String, ◌≡◌, refl, not, List, [], ◌∷◌, arith, eq_iff, str_eq, select, insert, delete, member,
  lookup-insert, lookup-delete, inl, inr, ◌⊎◌,
}
use llm_api_router.Prelude.Dict.{Assoc}
use llm_api_router.Domain.Server.{Server}
use llm_api_router.Domain.Rule.{ServerRef}
use llm_api_router.Domain.Settings.{Config}
use llm_api_router.Config.Store.{Disk}
use llm_api_router.Config.Store.Servers.{
  all_refs, references, audit_server_refs, add_server, update_server, delete_server,
}

abbrev dangling : Assoc Server → List ServerRef → List ServerRef
dangling servers = select (λ ref. not (member ref.id servers))

dangling-delete :
    (servers : Assoc Server) (id : String) (refs : List ServerRef)
    → dangling servers refs ≡ []
    → select (λ ref. str_eq ref.id id) refs ≡ []
    → dangling (delete id servers) refs ≡ []
unfolding member
dangling-delete servers id [] d n = refl
dangling-delete servers id (r ∷ refs) d n =
    let ih = dangling-delete servers id refs in
    ground (arith, lookup-delete id r.id servers, eq_iff id r.id, eq_iff r.id id, ih)

dangling-insert :
    (servers : Assoc Server) (id : String) (srv : Server) (refs : List ServerRef)
    → dangling servers refs ≡ []
    → dangling (insert id srv servers) refs ≡ []
unfolding member
dangling-insert servers id srv [] d = refl
dangling-insert servers id srv (r ∷ refs) d =
    let ih = dangling-insert servers id srv refs in
    ground (arith, lookup-insert id r.id srv servers, ih)

refs-cases :
    (refs : List ServerRef)
    → (refs ≡ []) ⊎ ((r : ServerRef) × (rs : List ServerRef) × (refs ≡ r ∷ rs))
refs-cases [] = inl refl
refs-cases (r ∷ rs) = inr (r, rs, refl)

delete_server-audit :
    (disk : Disk) (c : Config) (id : String)
    → audit_server_refs c ≡ []
    → audit_server_refs (delete_server disk c id).0 ≡ []
unfolding audit_server_refs delete_server references
delete_server-audit disk c id clean =
    elim (refs-cases (select (λ ref. str_eq ref.id id) (all_refs c.profiles))) [
      | inl unused ↦
          ground
            (arith, clean, unused, dangling-delete c.servers id (all_refs c.profiles) clean unused)
      | inr (r, rs, used) ↦ ground (arith, clean, used)
    ]

-- The writes on servers of the admin API.
pub data ServerWrite : Type 0 where
  adds : Server → ServerWrite
  updates : String → Server → ServerWrite
  deletes : String → ServerWrite

unfoldable pub write : Disk → Config → ServerWrite → Config
write disk c (adds srv) = (add_server disk c srv).0
write disk c (updates id srv) = (update_server disk c id srv).0
write disk c (deletes id) = (delete_server disk c id).0

-- In a configuration whose rules name only servers that are defined, no adding, updating or
-- deleting of a server leaves a rule of any profile naming one that is not.
pub write-audit :
    (disk : Disk) (c : Config) (w : ServerWrite)
    → audit_server_refs c ≡ []
    → audit_server_refs (write disk c w) ≡ []
unfolding write audit_server_refs add_server update_server
write-audit disk c (adds srv) clean =
    ground (arith, clean, dangling-insert c.servers srv.id srv (all_refs c.profiles) clean)
write-audit disk c (updates id srv) clean = ground (
  arith,
  clean,
  dangling-insert c.servers id (record srv { id = id }) (all_refs c.profiles) clean,
)
write-audit disk c (deletes id) clean = delete_server-audit disk c id clean
