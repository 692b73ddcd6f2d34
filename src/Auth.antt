-- ===== src/Auth.antt =====
-- modules/auth/request-context.ts, rbac.ts and scope.ts: who may do what, and in which production group.
use wafer_fabrication_schedu.Base.{
  ℕ, Bool, true, false, Option, List, [], ◌∷◌, any, elem, keep, map,
}
use wafer_fabrication_schedu.Store.{
  World, FactoryRow, forbidden, Result, ok, err, Action, pure, throw, guard,
}

pub data UserRole : Type 0 where
  superadmin admin sales system : UserRole

pub record AuthUser : Type 0 where
  pub id : ℕ
  pub role : UserRole

abbrev pub eq_role : UserRole → UserRole → Bool
eq_role superadmin superadmin = true
eq_role admin admin = true
eq_role sales sales = true
eq_role system system = true
eq_role _ _ = false

pub data ActorScope : Type 0 where
  sales_scope : (user_id : ℕ) → ActorScope
  admin_scope : (user_id : ℕ) (factory_ids : List ℕ) (production_type : ℕ) → ActorScope
  superadmin_scope : (user_id : ℕ) (group : Option ℕ) → ActorScope

unfoldable pub require_role : AuthUser → List UserRole → Action (Unit {0})
require_role user allowed = guard (any (eq_role user.role) allowed) forbidden

-- `factories[0]`, and Forbidden for an empty array.
abbrev pub admin_scope_of : ℕ → List FactoryRow → Result ActorScope
admin_scope_of user_id [] = err forbidden
admin_scope_of user_id (f ∷ fs) =
    ok (admin_scope user_id (map (λ (g : FactoryRow). g.id) (f ∷ fs)) f.production_type)

abbrev pub scope_for : UserRole → ℕ → World → Result ActorScope
scope_for sales user_id w = ok (sales_scope user_id)
scope_for admin user_id w =
    admin_scope_of user_id (keep (λ (f : FactoryRow). elem user_id f.admins) w.factories)
scope_for superadmin user_id w = ok (superadmin_scope user_id (w.user_group user_id))
scope_for system user_id w = err forbidden

unfoldable pub resolve_actor_scope : AuthUser → Action ActorScope
resolve_actor_scope user w = (scope_for user.role user.id w, w)

unfoldable pub get_scope_group : ActorScope → Action ℕ
get_scope_group (sales_scope user_id) = throw forbidden
get_scope_group (admin_scope user_id factory_ids production_type) = pure production_type
get_scope_group (superadmin_scope user_id group) = throw forbidden

abbrev pub is_admin : ActorScope → Bool
is_admin (admin_scope user_id factory_ids production_type) = true
is_admin _ = false

abbrev pub scope_user_id : ActorScope → ℕ
scope_user_id (sales_scope user_id) = user_id
scope_user_id (admin_scope user_id factory_ids production_type) = user_id
scope_user_id (superadmin_scope user_id group) = user_id
