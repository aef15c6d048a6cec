-- ===== src/Auth/Policy.antt =====
-- packages/auth/src/policy.ts
use chain_port.Prelude.{
  ◌≤◌, ◌&&◌, map, count, elem, String, ◌≡◌, Bool, true, false, ◌||◌, Option, none, some, List, [],
  ◌∷◌, any, find, if◌then◌else◌, ◌===◌, arith, refl,
}

pub data MembershipRole : Type 0 where
  owner admin member viewer : MembershipRole

pub data FoundationRole : Type 0 where
  foundation_admin foundation_analyst : FoundationRole

pub record ActorMembership : Type 0 where
  pub organization_id : String
  pub role : MembershipRole

pub record Actor : Type 0 where
  pub user_id : String
  pub is_platform_admin : Bool
  pub memberships : List ActorMembership

-- The owners of a project, which are all that the policy reads.
pub record Project : Type 0 where
  pub owner_user_id : Option String
  pub owner_organization_id : Option String

abbrev pub is_in_organization : String → ActorMembership → Bool
is_in_organization id item = item.organization_id === id

abbrev pub foundation_role : MembershipRole → FoundationRole
foundation_role MembershipRole.owner = foundation_admin
foundation_role MembershipRole.admin = foundation_admin
foundation_role _ = foundation_analyst

abbrev role_of : Option ActorMembership → Option FoundationRole
role_of none = none
role_of (some membership) = some (foundation_role membership.role)

unfoldable pub foundation_role_for : Actor → String → Option FoundationRole
foundation_role_for actor id = role_of (find (is_in_organization id) actor.memberships)

abbrev is_same : Option String → String → Bool
is_same none id = false
is_same (some owner_id) id = owner_id === id

abbrev owned_by_organization : Actor → Option String → Bool
owned_by_organization actor none = false
owned_by_organization actor (some id) = any (is_in_organization id) actor.memberships

unfoldable pub can_access_project : Actor → Project → Bool
can_access_project actor project =
    if actor.is_platform_admin
    then true
    else if is_same project.owner_user_id actor.user_id
    then true
    else owned_by_organization actor project.owner_organization_id

unfoldable pub can_deploy : Actor → Project → Bool
unfolding can_access_project
can_deploy actor project = can_access_project actor project

abbrev is_foundation_admin : Option FoundationRole → Bool
is_foundation_admin (some foundation_admin) = true
is_foundation_admin _ = false

abbrev is_some {ℓ} : {A : Type ℓ} → Option A → Bool
is_some none = false
is_some (some a) = true

unfoldable pub can_manage_partner : Actor → String → Bool
unfolding foundation_role_for
can_manage_partner actor id =
    if actor.is_platform_admin then true else is_foundation_admin (foundation_role_for actor id)

unfoldable pub can_view_partner : Actor → String → Bool
unfolding foundation_role_for
can_view_partner actor id =
    if actor.is_platform_admin then true else is_some (foundation_role_for actor id)

unfoldable pub can_create_platform_partner : Actor → Bool
can_create_platform_partner actor = actor.is_platform_admin

-- The roles that the documentation gives FOUNDATION_ADMIN to.
abbrev pub is_admin_role : MembershipRole → Bool
is_admin_role MembershipRole.owner = true
is_admin_role MembershipRole.admin = true
is_admin_role MembershipRole.member = false
is_admin_role MembershipRole.viewer = false

abbrev pub administers : String → ActorMembership → Bool
administers id item = (item.organization_id === id) && is_admin_role item.role

abbrev pub organizations : List ActorMembership → List String
organizations memberships = map (λ (item : ActorMembership). item.organization_id) memberships

is_some-find :
    (id : String) (memberships : List ActorMembership)
    → is_some (role_of (find (is_in_organization id) memberships))
      ≡ elem id (organizations memberships)
is_some-find id [] = ground arith
is_some-find id (item ∷ memberships) = ground (arith, is_some-find id memberships)

none_administers :
    (id : String) (memberships : List ActorMembership)
    → count id (organizations memberships) ≡ 0
    → any (administers id) memberships ≡ false
none_administers id [] h = refl
none_administers id (item ∷ memberships) h = ground (arith, none_administers id memberships)

is_foundation_admin-find :
    (id : String) (memberships : List ActorMembership)
    → count id (organizations memberships) ≤ 1
    → is_foundation_admin (role_of (find (is_in_organization id) memberships))
      ≡ any (administers id) memberships
is_foundation_admin-find id [] h = ground arith
is_foundation_admin-find id (item ∷ memberships) h =
    ground (arith, is_foundation_admin-find id memberships, none_administers id memberships)

-- Of an actor with at most one membership of a partner: the actor may manage the partner exactly if
-- it is a platform administrator or has a membership of the partner as OWNER or ADMIN, and may view
-- it exactly if it is a platform administrator or has any membership of it.
pub can_manage_partner_iff :
    (actor : Actor) (id : String)
    → count id (organizations actor.memberships) ≤ 1
    → (can_manage_partner actor id
        ≡ (actor.is_platform_admin || any (administers id) actor.memberships))
      × (can_view_partner actor id
          ≡ (actor.is_platform_admin || elem id (organizations actor.memberships)))
unfolding can_manage_partner can_view_partner
can_manage_partner_iff actor id once = (
  ground (arith, is_foundation_admin-find id actor.memberships once),
  ground (arith, is_some-find id actor.memberships),
)
