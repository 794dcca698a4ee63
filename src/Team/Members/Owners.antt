-- ===== src/Team/Members/Owners.antt =====
-- About the owners of a team under the two routes of http/routes/members.ts.
use teamem_server.Prelude.{
  none-ne-some, some-injective, ◌+◌, ◌≤◌, ◌≡◌, refl, sym, ap, subst, inl, inr, leb, Bool, false,
  ◌&&◌, Option, some, String, List, [], ◌∷◌, Result-cases, Option-cases, Bool-cases, arith, str_eq,
  str_eq_iff, length, first,
}
use teamem_server.Table.{filter, update_where, delete_where, length-filter-update}
use teamem_server.Table.Unique.{filter-filter}
use teamem_server.Team.Roles.{
  TeamRole, owner, role_eq, UserRow, Membership, TeamStore, is_of, is_owner_in,
}
use teamem_server.Team.Members.{
  Session, Target, joined, find_target, owner_count, with_role, set_role, remove_row, route_scope,
  apply_role, change_role, apply_removal, remove_member, at_write,
}

-- A team with an owner, and with at most one membership for each user.
pub record IsWellLed (team : String) (db : TeamStore) : Type 0 where
  pub led : 1 ≤ owner_count team db
  pub single : (user : String) → length (filter (is_of user team) db.memberships) ≤ 1

-- An update takes at most as many owners as there are owners among its rows.
owners_after_update :
    (p : Membership → Bool) (team : String) (role : TeamRole) (ms : List Membership)
    → length (filter (is_owner_in team) ms)
      ≤ length (filter (is_owner_in team) (update_where p (with_role role) ms))
        + length (filter (λ m. p m && is_owner_in team m) ms)
unfolding filter update_where
owners_after_update p team role [] = omega arith
owners_after_update p team role (m ∷ ms) = ground (arith, owners_after_update p team role ms)

owners_after_promotion :
    (p : Membership → Bool) (team : String) (ms : List Membership)
    → length (filter (is_owner_in team) ms)
      ≤ length (filter (is_owner_in team) (update_where p (with_role owner) ms))
unfolding filter update_where
owners_after_promotion p team [] = omega arith
owners_after_promotion p team (m ∷ ms) = ground (arith, owners_after_promotion p team ms)

owners_after_delete :
    (p : Membership → Bool) (team : String) (ms : List Membership)
    → length (filter (is_owner_in team) ms)
      ≤ length (filter (is_owner_in team) (delete_where p ms))
        + length (filter (λ m. p m && is_owner_in team m) ms)
unfolding filter delete_where
owners_after_delete p team [] = omega arith
owners_after_delete p team (m ∷ ms) = ground (arith, owners_after_delete p team ms)

length-delete_where :
    (p q : Membership → Bool) (ms : List Membership)
    → length (filter q (delete_where p ms)) ≤ length (filter q ms)
unfolding filter delete_where
length-delete_where p q [] = omega arith
length-delete_where p q (m ∷ ms) = ground (arith, length-delete_where p q ms)

-- At most one owner among the rows of one user.
one_owner :
    (user team : String) (ms : List Membership)
    → length (filter (λ m. is_of user team m && is_owner_in team m) ms)
      ≤ length (filter (is_of user team) ms)
unfolding filter
one_owner user team [] = omega arith
one_owner user team (m ∷ ms) = ground (arith, one_owner user team ms)

-- The target that the join finds is a row of the user, and the only one says its role.
found_role :
    (users : List UserRow) (ms : List Membership) (target : Target)
    → length ms ≤ 1
    → joined users ms ≡ some target
    → (m : Membership) × (ms ≡ m ∷ []) × (m.role ≡ target.current_role)
unfolding joined
found_role users [] target n h = absurd (cc)
found_role users (m ∷ n ∷ ms) target le h = absurd (omega (arith, le))
found_role users (m ∷ []) target le h =
    elim (Option-cases (first (filter (λ (u : UserRow). str_eq u.id m.user_id) users))) [
      | inl missing ↦ absurd (none-ne-some (rw (missing, joined) at h))
      | inr (u, there) ↦
          (m, refl, ap (λ (t : Target). t.current_role) (some-injective (rw (there, joined) at h)))
    ]

-- Another team has no owner among the rows of a user in this one.
other_owners :
    (user team t : String) (ms : List Membership)
    → str_eq t team ≡ false
    → length (filter (λ m. is_of user team m && is_owner_in t m) ms) ≤ 0
unfolding filter
other_owners user team t [] apart = omega arith
other_owners user team t (m ∷ ms) apart = ground (
  arith,
  other_owners user team t ms apart,
  str_eq_iff m.team_id team,
  str_eq_iff m.team_id t,
  str_eq_iff t team,
)

-- The rows of a member that is no owner.
no_owner :
    (user team : String) (ms : List Membership) (m : Membership)
    → filter (is_of user team) ms ≡ m ∷ []
    → role_eq m.role owner ≡ false
    → length (filter (λ n. is_of user team n && is_owner_in team n) ms) ≤ 0
unfolding filter
no_owner user team ms m only low =
    rw (← filter-filter (is_owner_in team) (is_of user team) ms) (rw only (ground (arith, low)))

-- The owners that a write to the rows of a target can take away leave one, in the target's team …
spared_here :
    (user team : String) (target : Target) (db : TeamStore)
    → IsWellLed team db
    → find_target user team db ≡ some target
    → (role_eq target.current_role owner && leb (owner_count team db) 1) ≡ false
    → 1 + length (filter (λ m. is_of user team m && is_owner_in team m) db.memberships)
      ≤ length (filter (is_owner_in team) db.memberships)
unfolding owner_count find_target
spared_here user team target db w found allowed =
    let (m, only, role) =
      found_role db.users (filter (is_of user team) db.memberships) target (w.single user) found in
    elim (Bool-cases (role_eq target.current_role owner)) [
      | inr low ↦ omega (
        arith,
        w.led,
        no_owner user team db.memberships m only
            (subst (λ r. role_eq r owner ≡ false) (sym role) low),
      )
      | inl high ↦
          let several : leb (length (filter (is_owner_in team) db.memberships)) 1 ≡ false =
            rw high at allowed in
          let many : 2 ≤ length (filter (is_owner_in team) db.memberships) =
            ground (arith, several) in
          omega (arith, many, one_owner user team db.memberships, w.single user)
    ]

-- … and in each other one.
spared :
    (user team t : String) (target : Target) (db : TeamStore)
    → IsWellLed t db
    → find_target user team db ≡ some target
    → (role_eq target.current_role owner && leb (owner_count team db) 1) ≡ false
    → 1 + length (filter (λ m. is_of user team m && is_owner_in t m) db.memberships)
      ≤ length (filter (is_owner_in t) db.memberships)
unfolding owner_count
spared user team t target db w found allowed = elim (Bool-cases (str_eq t team)) [
  | inr apart ↦ omega (arith, other_owners user team t db.memberships apart, w.led)
  | inl same ↦
      subst
        (λ x.
          1 + length (filter (λ m. is_of user team m && is_owner_in x m) db.memberships)
          ≤ length (filter (is_owner_in x) db.memberships))
        (sym ((str_eq_iff t team).0 same))
        (spared_here user team target db
          (subst (λ x. IsWellLed x db) ((str_eq_iff t team).0 same) w) found allowed)
]

abbrev pub alone : TeamStore → TeamStore
alone db = db

pub undisturbed : (target : Target) (db : TeamStore) → at_write alone alone target db ≡ db
undisturbed target db = elim (Bool-cases (role_eq target.current_role owner)) [
  | inl high ↦ rw high refl
  | inr low ↦ rw low refl
]

set_role-IsWellLed :
    (user team t : String) (role : TeamRole) (db : TeamStore)
    → IsWellLed t db
    → 1 + length (filter (λ m. is_of user team m && is_owner_in t m) db.memberships)
      ≤ length (filter (is_owner_in t) db.memberships)
    → IsWellLed t (set_role user team role db)
unfolding owner_count
set_role-IsWellLed user team t role db w left = record {
  led = omega (arith, left, owners_after_update (is_of user team) t role db.memberships);
  single = λ u. omega (
    arith,
    w.single u,
    length-filter-update (is_of user team) (with_role role) (is_of u t) (λ m. refl) db.memberships,
  );
}

remove_row-IsWellLed :
    (user team t : String) (db : TeamStore)
    → IsWellLed t db
    → 1 + length (filter (λ m. is_of user team m && is_owner_in t m) db.memberships)
      ≤ length (filter (is_owner_in t) db.memberships)
    → IsWellLed t (remove_row user team db)
unfolding owner_count
remove_row-IsWellLed user team t db w left = record {
  led = omega (arith, left, owners_after_delete (is_of user team) t db.memberships);
  single = λ u.
      omega (arith, w.single u, length-delete_where (is_of user team) (is_of u t) db.memberships);
}

apply_role-IsWellLed :
    (user team t : String) (role : TeamRole) (target : Target) (db : TeamStore)
    → IsWellLed t db
    → find_target user team db ≡ some target
    → IsWellLed t (apply_role alone alone user team role target db).0
unfolding apply_role
apply_role-IsWellLed user team t role target db w found =
    elim (Bool-cases (role_eq target.current_role role)) [
      | inl same ↦ rw same w
      | inr change ↦
          elim (Bool-cases (role_eq target.current_role owner && leb (owner_count team db) 1)) [
            | inl last ↦ rw (change, last) w
            | inr allowed ↦
                rw (change, allowed, undisturbed target db)
                  (set_role-IsWellLed user team t role db w
                    (spared user team t target db w found allowed))
          ]
    ]

apply_removal-IsWellLed :
    (user team t : String) (target : Target) (db : TeamStore)
    → IsWellLed t db
    → find_target user team db ≡ some target
    → IsWellLed t (apply_removal alone alone user team target db).0
unfolding apply_removal
apply_removal-IsWellLed user team t target db w found =
    elim (Bool-cases (role_eq target.current_role owner && leb (owner_count team db) 1)) [
      | inl last ↦ rw last w
      | inr allowed ↦
          rw (allowed, undisturbed target db)
            (remove_row-IsWellLed user team t db w (spared user team t target db w found allowed))
    ]

-- A change of a role that no other request interleaves with keeps each team with an owner, and with
-- one membership for each user.
pub change_role-IsWellLed :
    (session : Session) (user t : String) (body : Option TeamRole) (db : TeamStore)
    → IsWellLed t db
    → IsWellLed t (change_role alone alone session user body db).0
unfolding change_role
change_role-IsWellLed session user t body db w = elim (Result-cases (route_scope session user)) [
  | inr (e, refused) ↦ rw (refused, change_role) w
  | inl (team, scoped) ↦ elim (Option-cases body) [
    | inl invalid ↦ rw (scoped, change_role, invalid) w
    | inr (role, parsed) ↦ elim (Option-cases (find_target user team db)) [
      | inl missing ↦ rw (scoped, change_role, parsed, missing) w
      | inr (target, found) ↦
          rw (scoped, change_role, parsed, found)
            (apply_role-IsWellLed user team t role target db w found)
    ]
  ]
]

pub remove_member-IsWellLed :
    (session : Session) (user t : String) (db : TeamStore)
    → IsWellLed t db
    → IsWellLed t (remove_member alone alone session user db).0
unfolding remove_member
remove_member-IsWellLed session user t db w = elim (Result-cases (route_scope session user)) [
  | inr (e, refused) ↦ rw (refused, remove_member) w
  | inl (team, scoped) ↦ elim (Option-cases (find_target user team db)) [
    | inl missing ↦ rw (scoped, remove_member, missing) w
    | inr (target, found) ↦
        rw (scoped, remove_member, found) (apply_removal-IsWellLed user team t target db w found)
  ]
]
