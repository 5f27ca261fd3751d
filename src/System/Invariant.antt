-- ===== src/System/Invariant.antt =====
-- What holds between the steps of a task while the loop of the gateway goes on.
use pico_proving_service.Prelude.{
  ℕ, suc, ◌+◌, ◌≤◌, ◌≡◌, List, [], ◌∷◌, none, Bool, true, All, length, drop,
}
use pico_proving_service.ProofTree.Sets.{Nodes}
use pico_proving_service.ProofTree.Tiling.{Tiles, end_of}
use pico_proving_service.ProofTree.Settled.{Settled}
use pico_proving_service.ProofTree.Open.{open_at}
use pico_proving_service.Messages.{GatewayMsg, embed}
use pico_proving_service.Gateway.{Gateway}
use pico_proving_service.Emulator.{send_records}
use pico_proving_service.Worker.{Msg}
use pico_proving_service.Worker.Vm.{PicoVm}
use pico_proving_service.Worker.Attests.{Attests}
use pico_proving_service.System.{System}
use pico_proving_service.System.Flight.{in_flight, Guarded, IsTask, IsExact, Fits}

-- How many embed proofs there are among the messages.
abbrev pub embeds : {P R E : Type 0} → List (GatewayMsg P R E) → ℕ
embeds [] = 0
embeds (embed _ ∷ ms) = suc (embeds ms)
embeds (_ ∷ ms) = embeds ms

abbrev pub nodes_of : {vm : PicoVm} → System vm → Nodes vm.MetaProof
nodes_of s = s.gateway.handler.proof_tree.tree

module _ (vm : PicoVm) (v : Attests vm) (records : List vm.EmulationRecord) (eager : Bool)
    (vk : vm.VerifyingKey) where
  -- What is left of the emulation, after `hi` chunks.
  pub data Upcoming (hi : ℕ) (q : List (Msg vm)) : Type 0 where
    ahead :
        (rest : List vm.EmulationRecord)
        → q ≡ send_records hi rest
        → drop hi records ≡ rest
        → hi + length rest ≡ length records
        → Upcoming hi q
    done : q ≡ [] → hi ≡ length records → Upcoming hi q

  pub record Running (g : Gateway vm.MetaProof vm.EmbedProof) : Type 0 where
    pub no_embed : g.handler.embed_proof ≡ none
    pub sender : g.has_sender ≡ true
    pub unsent : g.completion ≡ []

  pub record Flying (t : Nodes vm.MetaProof) (requests responses : List (Msg vm)) : Type 0 where
    pub requests_fit : All (Fits vm v records eager vk t) requests
    pub tasks : All IsTask requests
    pub responses_fit : All (Fits vm v records eager vk t) responses
    -- a node in progress has one message in flight, unless the embed proof is under way
    pub at_most : (i : ℕ) → in_flight i requests + in_flight i responses ≤ open_at i t
    pub exactly :
        embeds responses ≡ 0 → (i : ℕ) → in_flight i requests + in_flight i responses ≡ open_at i t
    pub guarded : Guarded responses

  pub record Inv (s : System vm) : Type 0 where
    pub running : Running s.gateway
    pub tiles : Tiles (IsExact vm v records eager vk) 0 (nodes_of s)
    pub settled : Settled (nodes_of s)
    pub upcoming : Upcoming (end_of 0 (nodes_of s)) s.emulator_queue
    pub flying : Flying (nodes_of s) s.requests s.responses
