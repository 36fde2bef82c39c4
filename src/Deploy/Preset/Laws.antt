-- ===== src/Deploy/Preset/Laws.antt =====
-- What every plan of `Expand` satisfies: the firewall opens exactly the inbounds' ports, no tuning
-- operation comes twice and the clients are sent to the same address.
use zenith_panel.Common.{
  ℕ, ◌≡◌, refl, ◌∙◌, List, [], ◌∷◌, Bool, true, false, Text, codes, text_eq, text_beq, nat_eq, map,
  ap, sym, map-append, All-append, subst, if◌then◌else◌, ◌==◌, Result, ok, err, contains,
  contains-append, Bool-cases, Result-cases, inl, inr, All,
}
use zenith_panel.Deploy.Plan.{ProbeResult, Input, TuneSpec, InboundSpec, DeployPlan}
use zenith_panel.Deploy.Preset.Merge.{
  merge, IsUnique, snoc-IsUnique, merge-IsUnique, contains-merge,
}
use zenith_panel.Deploy.Preset.{
  Secrets, stable_plan, expand_stable_egress, speed_plan, expand_speed, combined, expand_combo,
  udp_tuning, weak_plan, expand_weak_network, rps_spread, add_host_specific_tuning, address_of,
  fill_address, set_server_address, finish, expand, needs_rps,
}

abbrev names : List TuneSpec → List Text
names tuning = map (λ t. t.op_name) tuning

abbrev pub ports : List InboundSpec → List ℕ
ports inbounds = map (λ i. i.port) inbounds

-- A plan before the host's own tuning.
record IsSound (plan : DeployPlan) : Type 0 where
  opened : (p : ℕ) → contains plan.firewall_allow_port p ≡ contains (ports plan.inbounds) p
  once : IsUnique (λ t. t.op_name) plan.tuning
  spare : contains (names plan.tuning) (codes "rps_spread") ≡ false
  unset : All (λ i. i.server_address ≡ []) plan.inbounds

abbrev IfOk : (DeployPlan → Type 0) → Result DeployPlan → Type 0
IfOk P (ok plan) = P plan
IfOk P (err e) = Unit

stable_plan-IsSound :
    (input : Input) (probe : ProbeResult) (keys : Text × Text) (short client_id : Text)
    → IsSound (stable_plan input probe keys short client_id)
unfolding stable_plan contains text_beq
stable_plan-IsSound input probe keys short client_id = record {
  opened = λ p. refl;
  once = (refl, (refl, (refl, (refl, (refl, tt)))));
  spare = refl;
  unset = (refl, tt);
}

expand_stable_egress-IsSound :
    (secrets : Secrets) (probe : ProbeResult) (input : Input)
    → IfOk IsSound (expand_stable_egress secrets probe input)
unfolding expand_stable_egress
expand_stable_egress-IsSound secrets probe input = elim (Result-cases secrets.reality_keys) [
  | inr (e, is) ↦ rw (is, expand_stable_egress) tt
  | inl (keys, is) ↦ elim (Result-cases secrets.short_id) [
    | inr (e, has) ↦ rw (is, has, expand_stable_egress) tt
    | inl (short, has) ↦
        rw (is, has, expand_stable_egress)
          (stable_plan-IsSound input probe keys short secrets.client_id)
  ]
]

udp_tuning-once :
    (cake : Bool) (probe : ProbeResult)
    → IsUnique
        (λ t. t.op_name)
        (udp_tuning (if cake then codes "qdisc_cake" else codes "bbr_fq") probe)
unfolding udp_tuning contains text_beq
udp_tuning-once true probe = (refl, (refl, (refl, (refl, (refl, (refl, tt))))))
udp_tuning-once false probe = (refl, (refl, (refl, (refl, (refl, (refl, tt))))))

udp_tuning-spare :
    (cake : Bool) (probe : ProbeResult)
    → contains
        (names (udp_tuning (if cake then codes "qdisc_cake" else codes "bbr_fq") probe))
        (codes "rps_spread")
      ≡ false
unfolding udp_tuning contains text_beq
udp_tuning-spare true probe = refl
udp_tuning-spare false probe = refl

speed_plan-IsSound :
    (input : Input) (probe : ProbeResult) (password : Text)
    → IsSound (speed_plan input probe password)
unfolding speed_plan contains
speed_plan-IsSound input probe password = record {
  opened = λ p. refl;
  once = udp_tuning-once false probe;
  spare = udp_tuning-spare false probe;
  unset = (refl, tt);
}

weak_plan-IsSound :
    (input : Input) (probe : ProbeResult) (hy2_password tuic_id tuic_password : Text)
    → IsSound (weak_plan input probe hy2_password tuic_id tuic_password)
unfolding weak_plan contains
weak_plan-IsSound input probe hy2_password tuic_id tuic_password = record {
  opened = λ p. refl;
  once = udp_tuning-once probe.has_cake probe;
  spare = udp_tuning-spare probe.has_cake probe;
  unset = (refl, (refl, tt));
}

expand_speed-IsSound :
    (secrets : Secrets) (probe : ProbeResult) (input : Input)
    → IfOk IsSound (expand_speed secrets probe input)
unfolding expand_speed
expand_speed-IsSound secrets probe input = elim (Result-cases secrets.hy2_password) [
  | inr (e, is) ↦ rw (is, expand_speed) tt
  | inl (password, is) ↦ rw (is, expand_speed) (speed_plan-IsSound input probe password)
]

expand_weak_network-IsSound :
    (secrets : Secrets) (probe : ProbeResult) (input : Input)
    → IfOk IsSound (expand_weak_network secrets probe input)
unfolding expand_weak_network
expand_weak_network-IsSound secrets probe input = elim (Result-cases secrets.hy2_password) [
  | inr (e, is) ↦ rw (is, expand_weak_network) tt
  | inl (hy2, is) ↦ elim (Result-cases secrets.tuic_password) [
    | inr (e, has) ↦ rw (is, has, expand_weak_network) tt
    | inl (tuic, has) ↦
        rw (is, has, expand_weak_network) (weak_plan-IsSound input probe hy2 secrets.tuic_id tuic)
  ]
]

map_id : (xs : List ℕ) → map (λ p. p) xs ≡ xs
map_id [] = refl
map_id (x ∷ xs) = ap (λ ys. x ∷ ys) (map_id xs)

combined-opened :
    (stable speed : DeployPlan)
    → IsSound stable
    → IsSound speed
    → (p : ℕ)
    → contains (combined stable speed).firewall_allow_port p
      ≡ contains (ports (combined stable speed).inbounds) p
unfolding combined
combined-opened stable speed a b p =
    rw
      (
        sym (map_id (merge (λ p. p) stable.firewall_allow_port speed.firewall_allow_port)),
        contains-merge (λ p. p) stable.firewall_allow_port speed.firewall_allow_port p,
        map_id stable.firewall_allow_port,
        map_id speed.firewall_allow_port,
        a.opened p,
        b.opened p,
      )
      (rw
        (
          map-append (λ i. i.port) stable.inbounds speed.inbounds,
          contains-append (ports stable.inbounds) (ports speed.inbounds) p,
        )
        refl)

combined-IsSound :
    (stable speed : DeployPlan) → IsSound stable → IsSound speed → IsSound (combined stable speed)
unfolding combined
combined-IsSound stable speed a b = record {
  opened = combined-opened stable speed a b;
  once = merge-IsUnique (λ t. t.op_name) stable.tuning speed.tuning;
  spare =
      rw
        (
          contains-merge (λ t. t.op_name) stable.tuning speed.tuning (codes "rps_spread"),
          a.spare,
          b.spare,
        )
        refl;
  unset = All-append (λ i. i.server_address ≡ []) stable.inbounds speed.inbounds a.unset b.unset;
}

expand_combo-IsSound :
    (secrets : Secrets) (probe : ProbeResult) (input : Input)
    → IfOk IsSound (expand_combo secrets probe input)
unfolding expand_combo
expand_combo-IsSound secrets probe input =
    elim (Result-cases (expand_stable_egress secrets probe input)) [
      | inr (e, is) ↦ rw (is, expand_combo) tt
      | inl (stable, is) ↦ elim (Result-cases (expand_speed secrets probe input)) [
        | inr (e, has) ↦ rw (is, has, expand_combo) tt
        | inl (speed, has) ↦
            rw (is, has, expand_combo)
              (combined-IsSound stable speed
                (subst (IfOk IsSound) is (expand_stable_egress-IsSound secrets probe input))
                (subst (IfOk IsSound) has (expand_speed-IsSound secrets probe input)))
      ]
    ]

ports-fill :
    (address : Text) (specs : List InboundSpec)
    → ports (map (fill_address address) specs) ≡ ports specs
unfolding fill_address text_beq
ports-fill address [] = refl
ports-fill address (spec ∷ specs) = elim (Bool-cases (spec.server_address == [])) [
  | inl e ↦ rw (e, fill_address) (ap (λ ps. spec.port ∷ ps) (ports-fill address specs))
  | inr e ↦ rw (e, fill_address) (ap (λ ps. spec.port ∷ ps) (ports-fill address specs))
]

fill-All :
    (address : Text) (specs : List InboundSpec)
    → All (λ i. i.server_address ≡ []) specs
    → All (λ i. i.server_address ≡ address) (map (fill_address address) specs)
unfolding fill_address text_beq
fill-All address [] u = tt
fill-All address (spec ∷ specs) (u, us) = (rw (u, fill_address) refl, fill-All address specs us)

-- A plan that `Expand` returns.
pub record IsReady (probe : ProbeResult) (input : Input) (plan : DeployPlan) : Type 0 where
  pub opened : (p : ℕ) → contains plan.firewall_allow_port p ≡ contains (ports plan.inbounds) p
  pub once : IsUnique (λ t. t.op_name) plan.tuning
  pub addressed : All (λ i. i.server_address ≡ address_of probe input) plan.inbounds

finish-IsReady :
    (probe : ProbeResult) (input : Input) (r : Result DeployPlan)
    → IfOk IsSound r
    → IfOk (IsReady probe input) (finish probe input r)
unfolding finish set_server_address add_host_specific_tuning rps_spread
finish-IsReady probe input (err e) s = tt
finish-IsReady probe input (ok plan) s = elim (Bool-cases (needs_rps probe)) [
  | inl e ↦
      rw (e, add_host_specific_tuning)
        (record {
          opened = λ p.
              s.opened p
              ∙ ap (λ ps. contains ps p) (sym (ports-fill (address_of probe input) plan.inbounds));
          once = snoc-IsUnique (λ t. t.op_name) plan.tuning (rps_spread probe) s.once s.spare;
          addressed = fill-All (address_of probe input) plan.inbounds s.unset;
        })
  | inr e ↦
      rw (e, add_host_specific_tuning)
        (record {
          opened = λ p.
              s.opened p
              ∙ ap (λ ps. contains ps p) (sym (ports-fill (address_of probe input) plan.inbounds));
          once = s.once;
          addressed = fill-All (address_of probe input) plan.inbounds s.unset;
        })
]

expand-IfOk :
    (secrets : Secrets) (id : Text) (probe : ProbeResult) (input : Input)
    → IfOk (IsReady probe input) (expand secrets id probe input)
unfolding expand
expand-IfOk secrets id probe input = elim (Bool-cases (id == codes "stable_egress")) [
  | inl a ↦
      rw (a, expand)
        (finish-IsReady probe input _ (expand_stable_egress-IsSound secrets probe input))
  | inr a ↦ elim (Bool-cases (id == codes "speed")) [
    | inl b ↦
        rw (a, b, expand) (finish-IsReady probe input _ (expand_speed-IsSound secrets probe input))
    | inr b ↦ elim (Bool-cases (id == codes "combo")) [
      | inl c ↦
          rw (a, b, c, expand)
            (finish-IsReady probe input _ (expand_combo-IsSound secrets probe input))
      | inr c ↦ elim (Bool-cases (id == codes "weak_network")) [
        | inl d ↦
            rw (a, b, c, d, expand)
              (finish-IsReady probe input _ (expand_weak_network-IsSound secrets probe input))
        | inr d ↦ rw (a, b, c, d, expand) tt
      ]
    ]
  ]
]

-- A plan that `Expand` returns opens in the firewall exactly the ports of its inbounds, names no
-- tuning operation twice, and sends the clients of every inbound to the domain that the user gave
-- or, without one, to the probed IPv4 address.
pub expand-IsReady :
    (secrets : Secrets) (id : Text) (probe : ProbeResult) (input : Input) (plan : DeployPlan)
    → expand secrets id probe input ≡ ok plan
    → IsReady probe input plan
expand-IsReady secrets id probe input plan is =
    subst (IfOk (IsReady probe input)) is (expand-IfOk secrets id probe input)
