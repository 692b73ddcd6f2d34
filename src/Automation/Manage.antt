-- ===== src/Automation/Manage.antt =====
-- Whom modules/schedule/access-control.ts lets manage the schedule of a type.
use wafer_fabrication_schedu.Base.{
  ℕ, ◌≡◌, refl, ◌==◌, Bool, true, false, if◌then◌else◌, some, List, [], ◌∷◌, find, keep, elem,
  arith,
}
use wafer_fabrication_schedu.Store.{
  World, FactoryRow, forbidden, invalid_input, pure, throw, after, ◌>>=◌,
}
use wafer_fabrication_schedu.Auth.{
  AuthUser, UserRole, superadmin, admin, sales, system, admin_scope_of, resolve_actor_scope,
}
use wafer_fabrication_schedu.Orders.Status.{validate_order_type, standard_production_types}
use wafer_fabrication_schedu.Issues.Rules.{Ends, Passes, find-keep, check-Passes}
use wafer_fabrication_schedu.Automation.{check_schedule_group, assert_can_manage_schedule_type}

-- A standard type, and for an ADMIN the one that the first of its factories makes.
abbrev pub MayManage : AuthUser → ℕ → World → Type 0
MayManage user type w =
    (elem type standard_production_types ≡ true)
    × (user.role ≡ admin
        → (f : FactoryRow) × (find (λ (g : FactoryRow). elem user.id g.admins) w.factories ≡ some f)
          × (f.production_type ≡ type))

own_group :
    (id type : ℕ) (w : World) (fs : List FactoryRow)
    → elem type standard_production_types ≡ true
    → keep (λ (f : FactoryRow). elem id f.admins) w.factories ≡ fs
    → Ends
        (Passes (λ (u : Unit {0}). MayManage (record { id = id; role = admin }) type w) w)
        (after (admin_scope_of id fs, w) (check_schedule_group type))
own_group id type w [] s h = refl
own_group id type w (f ∷ fs) s h =
    check-Passes (MayManage (record { id = id; role = admin }) type w) (f.production_type == type)
      forbidden w
      (λ e. (
        s,
        λ a. (f, find-keep (λ (g : FactoryRow). elem id g.admins) w.factories fs f h, ground arith),
      ))

by_role :
    (id type : ℕ) (r : UserRole) (w : World)
    → elem type standard_production_types ≡ true
    → let user : AuthUser = record { id = id; role = r } in
      Ends
        (Passes (λ (u : Unit {0}). MayManage user type w) w)
        ((resolve_actor_scope user >>= check_schedule_group type) w)
unfolding resolve_actor_scope
by_role id type sales w s = (refl, (s, λ e. cc))
by_role id type admin w s =
    own_group id type w (keep (λ (f : FactoryRow). elem id f.admins) w.factories) s refl
by_role id type superadmin w s = (refl, (s, λ e. cc))
by_role id type system w s = refl

checked :
    (user : AuthUser) (type : ℕ) (w : World) (b : Bool)
    → elem type standard_production_types ≡ b
    → Ends (Passes (λ (u : Unit {0}). MayManage user type w) w) (
        ((if b then pure type else throw invalid_input) >>= λ t.
        resolve_actor_scope user >>= check_schedule_group t)
          w)
checked user type w true s = by_role user.id type user.role w s
checked user type w false s = refl

-- A call of `assertCanManageScheduleType` that returns is for one of the standard types, and if the user
-- is an ADMIN, then the first of its factories makes this type. It writes nothing.
pub assert_can_manage_schedule_type-MayManage :
    (user : AuthUser) (type : ℕ) (w : World)
    → Ends
        (Passes (λ (u : Unit {0}). MayManage user type w) w)
        (assert_can_manage_schedule_type user type w)
unfolding assert_can_manage_schedule_type validate_order_type
assert_can_manage_schedule_type-MayManage user type w =
    checked user type w (elem type standard_production_types) refl
