-- ===== src/Ota/Campaign/Chosen.antt =====
-- Which waves of a campaign are its last executed and its next pending one
-- (services/ota_campaign_service.py).
use Prim.Derive.{subst}
use mathlib.Core.List.{Memᴰ}
use control_ok_a_v.Base.{
  ◌≤◌, ◌≡◌, refl, ◌⊎◌, inl, inr, none, some, List, [], ◌∷◌, arith, All, ltb, Bool-cases,
  Option-cases,
}
use control_ok_a_v.Ota.Campaign.Service.{
  OtaDeployResult, OtaCampaignWaveResult, last_executed_wave, next_pending_wave,
}

-- One of the waves that was deployed, and no wave that was deployed has a larger number.
pub record IsLastExecuted (results : List OtaCampaignWaveResult) (last : OtaCampaignWaveResult)
    : Type 0 where
  pub stands : Memᴰ last results
  pub deployed : (d : OtaDeployResult) × (last.deploy_result ≡ some d)
  pub latest :
      All (λ w. (w.deploy_result ≡ none) ⊎ (w.wave.wave_index ≤ last.wave.wave_index)) results

-- One of the waves that was not deployed, and no wave that was not deployed has a smaller number.
pub record IsNextPending (results : List OtaCampaignWaveResult) (next : OtaCampaignWaveResult)
    : Type 0 where
  pub waits : next.deploy_result ≡ none
  pub stands : Memᴰ next results
  pub earliest :
      All
        (λ w.
          ((d : OtaDeployResult) × (w.deploy_result ≡ some d))
          ⊎ (next.wave.wave_index ≤ w.wave.wave_index))
        results

all_map :
    {P Q : OtaCampaignWaveResult → Type 0} (rs : List OtaCampaignWaveResult)
    → ((w : OtaCampaignWaveResult) → P w → Q w)
    → All P rs
    → All Q rs
all_map [] f h = tt
all_map (r ∷ rs) f h = (f r h.0, all_map rs f h.1)

none_executed :
    (rs : List OtaCampaignWaveResult)
    → last_executed_wave rs ≡ none
    → All (λ w. w.deploy_result ≡ none) rs
unfolding last_executed_wave
none_executed [] e = tt
none_executed (r ∷ rs) e = elim (Option-cases r.deploy_result) [
  | inl waits ↦ (waits, none_executed rs (ground arith))
  | inr (d, deployed) ↦ absurd (ground arith)
]

none_pending :
    (rs : List OtaCampaignWaveResult)
    → next_pending_wave rs ≡ none
    → All (λ w. (d : OtaDeployResult) × (w.deploy_result ≡ some d)) rs
unfolding next_pending_wave
none_pending [] e = tt
none_pending (r ∷ rs) e = elim (Option-cases r.deploy_result) [
  | inl waits ↦ absurd (ground arith)
  | inr deployed ↦
      let (d, is) = deployed in
      let rest : next_pending_wave rs ≡ none = ground arith in (deployed, none_pending rs rest)
]

-- The last executed wave is the one with the largest number.
pub last_executed_wave-IsLastExecuted :
    (rs : List OtaCampaignWaveResult) {last : OtaCampaignWaveResult}
    → last_executed_wave rs ≡ some last
    → IsLastExecuted rs last
unfolding last_executed_wave
last_executed_wave-IsLastExecuted [] e = absurd (cc e)
last_executed_wave-IsLastExecuted (r ∷ rs) {last} e = elim (Option-cases r.deploy_result) [
  | inl waits ↦
      let rest = last_executed_wave-IsLastExecuted rs (ground arith) in
      record {
        stands = Memᴰ.tail rest.stands;
        deployed = rest.deployed;
        latest = (inl waits, rest.latest);
      }
  | inr deployed ↦
      let (d, is) = deployed in
      elim (Option-cases (last_executed_wave rs)) [
        | inl alone ↦
            let same : r ≡ last = ground arith in
            subst (IsLastExecuted (r ∷ rs)) same (record {
              stands = Memᴰ.head refl;
              deployed = deployed;
              latest = (inr (omega arith), all_map rs (λ w k. inl k) (none_executed rs alone));
            })
        | inr (s, others) ↦
            let rest = last_executed_wave-IsLastExecuted rs others in
            elim (Bool-cases (ltb r.wave.wave_index s.wave.wave_index)) [
              | inl below ↦
                  let same : s ≡ last = ground arith in
                  subst (IsLastExecuted (r ∷ rs)) same (record {
                    stands = Memᴰ.tail rest.stands;
                    deployed = rest.deployed;
                    latest = (inr (ground arith), rest.latest);
                  })
              | inr above ↦
                  let same : r ≡ last = ground arith in
                  subst (IsLastExecuted (r ∷ rs)) same (record {
                    stands = Memᴰ.head refl;
                    deployed = deployed;
                    latest = (
                      inr (omega arith),
                      all_map rs
                          (λ w k. elim k [
                            | inl n ↦ inl n
                            | inr le ↦ inr (ground (arith, above, le))
                          ])
                          rest.latest,
                    );
                  })
            ]
      ]
]

-- The next pending wave is the one with the smallest number.
pub next_pending_wave-IsNextPending :
    (rs : List OtaCampaignWaveResult) {next : OtaCampaignWaveResult}
    → next_pending_wave rs ≡ some next
    → IsNextPending rs next
unfolding next_pending_wave
next_pending_wave-IsNextPending [] e = absurd (cc e)
next_pending_wave-IsNextPending (r ∷ rs) {next} e = elim (Option-cases r.deploy_result) [
  | inr deployed ↦
      let (d, is) = deployed in
      let later_on : next_pending_wave rs ≡ some next = ground arith in
      let rest = next_pending_wave-IsNextPending rs later_on in
      record {
        waits = rest.waits;
        stands = Memᴰ.tail rest.stands;
        earliest = (inl deployed, rest.earliest);
      }
  | inl waits ↦ elim (Option-cases (next_pending_wave rs)) [
    | inl alone ↦
        let same : r ≡ next = ground arith in
        subst (IsNextPending (r ∷ rs)) same (record {
          waits = waits;
          stands = Memᴰ.head refl;
          earliest = (inr (omega arith), all_map rs (λ w k. inl k) (none_pending rs alone));
        })
    | inr (s, others) ↦
        let rest = next_pending_wave-IsNextPending rs others in
        elim (Bool-cases (ltb s.wave.wave_index r.wave.wave_index)) [
          | inl below ↦
              let same : s ≡ next = ground arith in
              subst (IsNextPending (r ∷ rs)) same (record {
                waits = rest.waits;
                stands = Memᴰ.tail rest.stands;
                earliest = (inr (ground arith), rest.earliest);
              })
          | inr above ↦
              let same : r ≡ next = ground arith in
              subst (IsNextPending (r ∷ rs)) same (record {
                waits = waits;
                stands = Memᴰ.head refl;
                earliest = (
                  inr (omega arith),
                  all_map rs
                      (λ w k. elim k [ inl n ↦ inl n | inr le ↦ inr (ground (arith, above, le)) ])
                      rest.earliest,
                );
              })
        ]
  ]
]
