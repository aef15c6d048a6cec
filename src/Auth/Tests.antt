-- ===== src/Auth/Tests.antt =====
-- A member of a partner.
use chain_port.Prelude.{arith, ◌≡◌, ◌||◌, false, [], ◌∷◌, any, elem}
use chain_port.Auth.Policy.{
  MembershipRole, Actor, organizations, administers, can_manage_partner, can_view_partner,
  can_manage_partner_iff,
}

abbrev administrator : Actor
administrator = record {
  user_id = "u";
  is_platform_admin = false;
  memberships =
      record { organization_id = "o"; role = MembershipRole.viewer }
      ∷ record { organization_id = "p"; role = MembershipRole.admin }
      ∷ [];
}

can_manage_partner_iff_example :
    (can_manage_partner administrator "p"
      ≡ (false || any (administers "p") administrator.memberships))
    × (can_view_partner administrator "p"
        ≡ (false || elem "p" (organizations administrator.memberships)))
can_manage_partner_iff_example = can_manage_partner_iff administrator "p" (omega arith)
