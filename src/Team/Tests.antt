-- ===== src/Team/Tests.antt =====
-- Requests on a team of one owner and one member, and the theorems at them.
use teamem_server.Prelude.{
  ◌≡◌, ◌≢◌, refl, true, false, some, none, String, List, [], ◌∷◌, err, arith, length, str_eq_iff,
  ◌≤◌,
}
use teamem_server.Table.{filter, update_where}
use teamem_server.Team.Roles.{viewer, member, admin, owner, conflict, InviteRow, TeamStore, is_of}
use teamem_server.Team.Members.{Session, owner_count, change_role}
use teamem_server.Team.Members.Owners.{IsWellLed, alone}
use teamem_server.Team.Invites.{Accepted, invite_already_used, accept_invite}
use teamem_server.Team.Invites.Accept.{Stored, accept_invite-Stored}
use teamem_server.Team.Requests.{
  Request, change, remove, invite, accept, serve_all, serve_all-IsWellLed,
}
use teamem_server.Team.Requests.Once.{accept_invite_once}

abbrev same_text : String → String
same_text s = s

abbrev invitation : InviteRow
invitation = record {
  id = "inv_1";
  team_id = "t1";
  token_hash = "tok_1";
  target_role = admin;
  invited_by_user_id = "ann";
  expires_at = 100;
  used_at = none;
  created_at = 1;
}

abbrev team_store : TeamStore
team_store = record {
  users =
      record { id = "ann"; github_login = "ann-x" }
      ∷ record { id = "bob"; github_login = "bob-x" }
      ∷ [];
  memberships = record { user_id = "ann"; team_id = "t1"; role = owner } ∷ [];
  invites = invitation ∷ [];
}

abbrev as_ann : Session
as_ann = record { user_id = "ann"; team_id = some "t1"; role = owner }

abbrev busy : List Request
busy =
    accept 5 "tok_1" "bob"
    ∷ change as_ann "bob" (some owner)
    ∷ change as_ann "ann" (some member)
    ∷ invite "inv_2" "tok_2" 6 "t1" viewer "bob" 50
    ∷ remove as_ann "bob"
    ∷ []

last_owner_test :
    change_role alone alone as_ann "ann" (some member) team_store
    ≡ (team_store, err (conflict "Cannot change role of the last owner"))
unfolding change_role owner_count filter
last_owner_test = refl

-- Ann and Bob are owners, and each demotes the other at once: both counts see two owners.
abbrev two_owners : TeamStore
two_owners = record team_store {
  memberships =
      record { user_id = "ann"; team_id = "t1"; role = owner }
      ∷ record { user_id = "bob"; team_id = "t1"; role = owner }
      ∷ [];
}

abbrev bob_steps_down : TeamStore → TeamStore
bob_steps_down db = (change_role alone alone as_ann "bob" (some member) db).0

two_demotions_test :
    owner_count "t1" (change_role alone bob_steps_down as_ann "ann" (some member) two_owners).0 ≡ 0
unfolding change_role owner_count filter update_where
two_demotions_test = refl

single_ann : (user : String) → length (filter (is_of user "t1") team_store.memberships) ≤ 1
unfolding filter
single_ann user = ground arith

team_store-IsWellLed : IsWellLed "t1" team_store
unfolding owner_count filter
team_store-IsWellLed = record { led = omega arith; single = single_ann }

serve_all-IsWellLed_example : IsWellLed "t1" (serve_all same_text busy team_store)
serve_all-IsWellLed_example =
    serve_all-IsWellLed same_text busy "t1" team_store team_store-IsWellLed

abbrev bob_joins : Accepted
bob_joins = record {
  membership = record { user_id = "bob"; team_id = "t1"; role = admin };
  invite_id = "inv_1";
  target_role = admin;
  invited_by_user_id = "ann";
  used_at = 5;
}

single_bob : (team : String) → length (filter (is_of "bob" team) team_store.memberships) ≤ 1
unfolding filter
single_bob team = ground arith

accept_invite-Stored_example :
    Stored same_text "bob" team_store
      (accept_invite same_text 5 "tok_1" "bob" team_store).0
      bob_joins
unfolding accept_invite filter
accept_invite-Stored_example =
    accept_invite-Stored same_text 5 "tok_1" "bob" team_store bob_joins single_bob refl

other_token : ◌≢◌ {A = String} "tok_2" "tok_1"
other_token e = let h : false ≡ true = (str_eq_iff "tok_2" "tok_1").1 e in cc

accept_invite_once_example :
    accept_invite same_text 20 "tok_1" "cyd"
      (serve_all same_text busy (accept_invite same_text 5 "tok_1" "bob" team_store).0)
    ≡ (
      serve_all same_text busy (accept_invite same_text 5 "tok_1" "bob" team_store).0,
      err invite_already_used,
    )
unfolding accept_invite filter
accept_invite_once_example =
    accept_invite_once same_text "tok_1" 5 20 "bob" "cyd" busy team_store bob_joins (omega arith)
      (tt, (tt, (tt, (other_token, (tt, tt))))) refl
