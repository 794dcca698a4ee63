-- ===== src/Team/Requests.antt =====
-- The requests on a team as one data type, each served on its own, so that a theorem can speak of
-- every order in which they come.
pub mod Once
use teamem_server.Prelude.{
  ℕ, suc, ◌+◌, ◌≤◌, ◌≡◌, ◌≢◌, refl, sym, ap, subst, inl, inr, Bool, true, false, ◌&&◌, Option, none,
  some, String, List, [], ◌∷◌, Result, ok, err, Option-cases, Bool-cases, arith, tests, ltb, str_eq,
  str_eq_iff, length, first, any, All, if◌then◌else◌,
}
use teamem_server.Table.{filter, update_where}
use teamem_server.Team.Roles.{TeamRole, Membership, InviteRow, TeamStore, is_of, is_owner_in}
use teamem_server.Team.Members.{Session, owner_count, change_role, remove_member}
use teamem_server.Team.Members.Owners.{
  IsWellLed, alone, change_role-IsWellLed, remove_member-IsWellLed,
}
use teamem_server.Team.Invites.{
  has_token, create_invite, insert_membership, membership_of, mark_used, has_id, accept_valid,
  accept_row, accept_invite,
}

pub data Request : Type 0 where
  change : Session → String → Option TeamRole → Request
  remove : Session → String → Request
  invite : String → String → ℕ → String → TeamRole → String → ℕ → Request
  accept : ℕ → String → String → Request

none_of :
    (user team : String) (ms : List Membership)
    → any (is_of user team) ms ≡ false
    → length (filter (is_of user team) ms) ≤ 0
unfolding filter
none_of user team [] h = omega arith
none_of user team (m ∷ ms) h = ground (arith, none_of user team ms)

at_most_one :
    (new : Membership) (u t : String) (ms : List Membership)
    → any (is_of new.user_id new.team_id) ms ≡ false
    → length (filter (is_of u t) ms) ≤ 1
    → length (filter (is_of u t) (new ∷ ms)) ≤ 1
unfolding filter
at_most_one new u t ms fresh one = elim (Bool-cases (is_of u t new)) [
  | inr miss ↦ rw miss one
  | inl hit ↦
      let same_user : new.user_id ≡ u = grind (tests, hit) in
      let same_team : new.team_id ≡ t = grind (tests, hit) in
      let missing : any (is_of u t) ms ≡ false =
        subst (λ x. any (is_of x t) ms ≡ false) same_user
          (subst (λ x. any (is_of new.user_id x) ms ≡ false) same_team fresh) in
      let few : length (filter (is_of u t) ms) ≤ 0 = none_of u t ms missing in
      let more : suc (length (filter (is_of u t) ms)) ≤ 1 = omega (arith, few) in rw hit more
]

module _ (hash : String → String) where
  unfoldable pub serve : Request → TeamStore → TeamStore
  unfolding change_role remove_member create_invite accept_invite
  serve (change session user body) db = (change_role alone alone session user body db).0
  serve (remove session user) db = (remove_member alone alone session user db).0
  serve (invite id plaintext now team role by ttl_ms) db =
      (create_invite hash id plaintext now team role by ttl_ms db).0
  serve (accept now plaintext user) db = (accept_invite hash now plaintext user db).0

  unfoldable pub serve_all : List Request → TeamStore → TeamStore
  unfolding serve
  serve_all [] db = db
  serve_all (r ∷ rs) db = serve_all rs (serve r db)

  insert_membership-IsWellLed :
      (new : Membership) (t : String) (db after : TeamStore)
      → IsWellLed t db
      → after.memberships ≡ insert_membership hash new db.memberships
      → IsWellLed t after
  unfolding owner_count filter
  insert_membership-IsWellLed new t db after w same =
      elim (Bool-cases (any (is_of new.user_id new.team_id) db.memberships)) [
        | inl there ↦
            let kept : after.memberships ≡ db.memberships = rw same (rw there refl) in
            record { led = rw kept w.led; single = λ u. rw kept (w.single u) }
        | inr fresh ↦
            let grown : after.memberships ≡ new ∷ db.memberships = rw same (rw fresh refl) in
            record {
              led = rw grown (ground (arith, w.led));
              single = λ u. rw grown (at_most_one new u t db.memberships fresh (w.single u));
            }
      ]

  accept_invite-IsWellLed :
      (now : ℕ) (plaintext user t : String) (db : TeamStore)
      → IsWellLed t db
      → IsWellLed t (accept_invite hash now plaintext user db).0
  unfolding accept_invite
  accept_invite-IsWellLed now plaintext user t db w =
      elim (Option-cases (first (filter (has_token hash plaintext) db.invites))) [
        | inl unknown_token ↦ rw (unknown_token, accept_invite) w
        | inr (row, found) ↦ elim (Option-cases row.used_at) [
          | inr (at, taken) ↦ rw (found, accept_invite, taken) w
          | inl unused ↦ elim (Bool-cases (ltb row.expires_at now)) [
            | inl late ↦ rw (found, accept_invite, unused, late) w
            | inr on_time ↦
                rw (found, accept_invite, unused, on_time)
                  (insert_membership-IsWellLed (membership_of hash user row) t db
                    (accept_valid hash now user row db).0 w (unfold accept_valid in refl))
          ]
        ]
      ]

  -- Whatever requests are served, one after the other, to change roles, to remove members, to invite
  -- and to accept, with any sessions and arguments: a team that has an owner, and at most one
  -- membership for each user, has both afterwards.
  pub serve_all-IsWellLed :
      (rs : List Request) (t : String) (db : TeamStore)
      → IsWellLed t db
      → IsWellLed t (serve_all rs db)
  unfolding serve_all
  serve_all-IsWellLed [] t db w = w
  serve_all-IsWellLed (r ∷ rs) t db w = serve_all-IsWellLed rs t (serve r db) (served r)
    where
      served : (q : Request) → IsWellLed t (serve q db)
      served (change session user body) = change_role-IsWellLed session user t body db w
      served (remove session user) = remove_member-IsWellLed session user t db w
      served (invite id plaintext now team role by ttl_ms) =
          unfold owner_count in record { led = w.led; single = w.single }
      served (accept now plaintext user) = accept_invite-IsWellLed now plaintext user t db w
