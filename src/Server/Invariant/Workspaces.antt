-- ===== src/Server/Invariant/Workspaces.antt =====
-- The invariant and the statements of chat_server/src/services/ws.rs and models/workspace.rs.
use chat.Base.{
  ℕ, ◌+◌, ◌≡◌, refl, sym, ◌∙◌, subst, ℤ, pos, eq_ℤ, eq_ℤ_iff, Text, true, Option, none, some, List,
  [], ◌∷◌, ◌++◌, map, All, All-append, arith, has_key, has_key-append, All-weaken, inl, inr, any,
  text_eq, ◌||◌, Bool-cases, Option-cases,
}
use chat.Core.{Chat}
use chat.Server.Models.{UserRow, Workspace}
use chat.Server.World.{Tables}
use chat.Server.Sql.Workspaces.{
  insert_workspace, put_workspace, workspace_row, update_workspace_owner, own, belongs,
  workspace_by_id,
}
use chat.Server.Sql.Rows.{nextval}
use chat.Server.Invariant.{IsValid, IsOwned, user_key, workspace_key}

IsValid-workspaces :
    (t : Tables) (ws : List Workspace) (n : ℕ)
    → IsValid t
    → All (IsOwned t.users) ws
    → All (λ (c : Chat). has_key workspace_key c.ws_id ws ≡ true) t.chats
    → IsValid (record t { workspaces = ws; workspaces_seq = n })
IsValid-workspaces t ws n v owners homes = record {
  users_once = v.users_once;
  chats_once = v.chats_once;
  messages_once = v.messages_once;
  rosters = v.rosters;
  owners = owners;
  homes = homes;
  threads = v.threads;
  issued = v.issued;
}

homes-append :
    (ws : List Workspace) (r : Workspace) (cs : List Chat)
    → All (λ c. has_key workspace_key c.ws_id ws ≡ true) cs
    → All (λ c. has_key workspace_key c.ws_id (ws ++ r ∷ []) ≡ true) cs
homes-append ws r cs h =
    All-weaken (λ c. has_key workspace_key c.ws_id ws ≡ true) _
      (λ c k. has_key-append workspace_key c.ws_id ws (r ∷ []) k) cs h

-- A row put in with owner 0 keeps the invariant.
put_workspace-IsValid :
    (t : Tables) (n : ℕ) (o : Option Workspace)
    → IsValid t
    → ((r : Workspace) → o ≡ some r → r.owner_id ≡ pos 0)
    → IsValid (put_workspace o (record t { workspaces_seq = n })).1
unfolding put_workspace
put_workspace-IsValid t n none v z = IsValid-workspaces t t.workspaces n v v.owners v.homes
put_workspace-IsValid t n (some r) v z =
    elim (Bool-cases (any (λ w. text_eq w.name r.name || eq_ℤ w.id r.id) t.workspaces)) [
      | inl taken ↦ rw taken (IsValid-workspaces t t.workspaces n v v.owners v.homes)
      | inr free ↦ rw free (elim (Bool-cases (has_key user_key r.owner_id t.users)) [
        | inl known ↦ rw known (
            IsValid-workspaces t (t.workspaces ++ r ∷ []) n v
              (All-append (IsOwned t.users) t.workspaces (r ∷ []) v.owners (inl (z r refl), tt))
              (homes-append t.workspaces r t.chats v.homes))
        | inr unknown ↦ rw unknown (IsValid-workspaces t t.workspaces n v v.owners v.homes)
      ])
    ]

workspace_row-owner :
    (name : Text) (owner_id : ℤ) (now : ℕ) (id : ℤ) (r : Workspace)
    → workspace_row name owner_id now id ≡ some r
    → r.owner_id ≡ owner_id
unfolding workspace_row
workspace_row-owner name owner_id now id r e = ground arith

pub insert_workspace-IsValid :
    (name : Text) (t : Tables) → IsValid t → IsValid (insert_workspace name (pos 0) t).1
unfolding insert_workspace
insert_workspace-IsValid name t v = elim (Option-cases (nextval t.workspaces_seq)) [
  | inl spent ↦ rw (spent, insert_workspace) v
  | inr (id, issued) ↦
      rw (issued, insert_workspace)
        (put_workspace-IsValid t (t.workspaces_seq + 1) _ v
          (workspace_row-owner name (pos 0) t.clock id))
]

IsOwned-own :
    (us : List UserRow) (id owner_id : ℤ) (w : Workspace)
    → belongs owner_id id us ≡ true
    → IsOwned us w
    → IsOwned us (own id owner_id w)
IsOwned-own us id owner_id w b h = elim (Bool-cases (eq_ℤ w.id id)) [
  | inl same ↦
      rw same (inr (subst (λ z. belongs owner_id z us ≡ true) (sym ((eq_ℤ_iff w.id id).0 same)) b))
  | inr other ↦ rw other h
]

owners-own :
    (us : List UserRow) (id owner_id : ℤ) (ws : List Workspace)
    → belongs owner_id id us ≡ true
    → All (IsOwned us) ws
    → All (IsOwned us) (map (own id owner_id) ws)
owners-own us id owner_id [] b h = tt
owners-own us id owner_id (w ∷ ws) b h =
    (IsOwned-own us id owner_id w b h.0, owners-own us id owner_id ws b h.1)

has_key-own :
    (z id owner_id : ℤ) (ws : List Workspace)
    → has_key workspace_key z (map (own id owner_id) ws) ≡ has_key workspace_key z ws
has_key-own z id owner_id [] = refl
has_key-own z id owner_id (w ∷ ws) = ground (arith, has_key-own z id owner_id ws)

homes-own :
    (id owner_id : ℤ) (ws : List Workspace) (cs : List Chat)
    → All (λ c. has_key workspace_key c.ws_id ws ≡ true) cs
    → All (λ c. has_key workspace_key c.ws_id (map (own id owner_id) ws) ≡ true) cs
homes-own id owner_id ws cs h =
    All-weaken (λ c. has_key workspace_key c.ws_id ws ≡ true) _
      (λ c k. has_key-own c.ws_id id owner_id ws ∙ k) cs h

pub update_workspace_owner-IsValid :
    (owner_id id : ℤ) (t : Tables) → IsValid t → IsValid (update_workspace_owner owner_id id t).1
unfolding update_workspace_owner
update_workspace_owner-IsValid owner_id id t v =
    elim (Option-cases (workspace_by_id id t.workspaces)) [
      | inl missing ↦ rw (missing, update_workspace_owner) v
      | inr (w, found) ↦
          rw (found, update_workspace_owner)
            (elim (Bool-cases (belongs owner_id id t.users)) [
              | inl b ↦ rw b (
                  IsValid-workspaces t (map (own id owner_id) t.workspaces) t.workspaces_seq v
                    (owners-own t.users id owner_id t.workspaces b v.owners)
                    (homes-own id owner_id t.workspaces t.chats v.homes))
              | inr other ↦ rw other v
            ])
    ]
