-- ===== src/Billing/Tests/Families.antt =====
-- The tiers of a family of two.
use fk_cesis_mms.Base.{◌≡◌, ◌<◌, ◌⊎◌, inl, inr, refl, true, [], min, count_if, arith}
use fk_cesis_mms.Models.{Db}
use fk_cesis_mms.Billing.Family.{compute_family_tier, Candidate}
use fk_cesis_mms.Billing.Family.Rank.{OneCurrent, tier_grows}
use fk_cesis_mms.Billing.Family.Elders.{is_elder, tier-elders}
use fk_cesis_mms.Billing.Tests.{plan, today, member_of, first_agreement, second_agreement, db_with}

abbrev two : Db
two = db_with []

abbrev elder : Candidate
elder = (first_agreement, member_of 1)

abbrev younger : Candidate
younger = (second_agreement, member_of 2)

one_current : OneCurrent two.agreements
one_current = (((λ _ _ e. absurd (omega (arith, e))), tt), (tt, tt))

tier-elders_example :
    compute_family_tier true two (member_of 2) plan today true
    ≡ min (count_if (is_elder true two 7 plan today true second_agreement) two.agreements) 3
tier-elders_example =
    tier-elders true two (member_of 2) plan today true second_agreement (member_of 2) one_current
      (inr (inl refl)) refl

tier_grows_example :
    (compute_family_tier true two (member_of 1) plan today true
      < compute_family_tier true two (member_of 2) plan today true)
    ⊎ ((compute_family_tier true two (member_of 1) plan today true ≡ 3)
        × (compute_family_tier true two (member_of 2) plan today true ≡ 3))
tier_grows_example =
    tier_grows true two (member_of 1) (member_of 2) plan today true elder younger one_current refl
      (inl refl) (inr (inl refl)) refl refl (11, 12, refl, refl, inl (omega arith))
