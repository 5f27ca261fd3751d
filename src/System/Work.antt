-- ===== src/System/Work.antt =====
-- What a worker prover sends for a task that fits.
use mathlib.Core.Path.{ap₂}
use pico_proving_service.Prelude.{
  ℕ, suc, ◌≤◌, ◌≡◌, refl, sym, subst, ap, ◌∙◌, List, [], ◌∷◌, ◌++◌, Bool, true, false, All, length,
  arith, ok, slice, slice-append, slice_one, take, take_all, if-cases_eq, inl, inr, Bool-cases,
  map-eq-ok, Text,
}
use pico_proving_service.ProofTree.Sets.{Nodes}
use pico_proving_service.Messages.{
  riscv, combine, embed, exit, close, request_task, emulator_complete, RiscvMsg, CombineMsg,
  RiscvRequest, CombineRequest, CombineResponse, EmbedResponse,
}
use pico_proving_service.Worker.{Prover, Reaction, Msg, handle, answer, deliver, finish}
use pico_proving_service.Worker.Vm.{PicoVm}
use pico_proving_service.Worker.RiscvConvert
use pico_proving_service.Worker.Attests.{Attests}
use pico_proving_service.Worker.Laws.{joint, process-adjacent, finish-attested}
use pico_proving_service.System.Flight.{
  of_node, in_flight, Guarded, IsWhole, Sure, Fits, Fresh, Two, Good,
}
use pico_proving_service.System.Invariant.{embeds}

module _ (vm : PicoVm) (v : Attests vm) (records : List vm.EmulationRecord) (eager : Bool)
    (w : Prover vm) (t : Nodes vm.MetaProof) where
  open vm use {MetaProof, EmbedProof, EmulationRecord}

  -- What a reaction to a message brings into flight.
  pub record Work (m : Msg vm) (r : Reaction vm) : Type 0 where
    pub fit : All (Fits vm v records eager w.riscv_convert.riscv_vk t) r.sent
    pub at_most : (i : ℕ) → in_flight i r.sent ≤ of_node i m
    pub exactly : embeds r.sent ≡ 0 → (i : ℕ) → in_flight i r.sent ≡ of_node i m
    pub guarded : Guarded r.sent
    pub few : length r.sent ≤ 2

  Work-riscv :
      (req : RiscvRequest EmulationRecord) (id ip : Text)
      → Fresh vm v records eager w.riscv_convert.riscv_vk t req
      → Work (riscv (RiscvMsg.request req) id ip) (
          answer vm (
            riscv
              (RiscvMsg.response (RiscvConvert.process vm w.riscv_convert req w.vk_root))
              id
              ip))
  unfolding RiscvConvert.process
  Work-riscv req id ip f = record {
    fit = (
      record {
        held = [];
        node = f.node;
        answers = (
          refl,
          refl,
          record {
            exact =
                v.convert_attests _ _ _ _ _ _ _ _ _ _ _
                ∙ sym (slice_one records req.chunk_index req.emulation_record f.own);
            part = λ sure whole. absurd (omega (arith, sure.several, whole.0, whole.1));
          },
        );
      },
      (tt, tt),
    );
    at_most = λ i. omega arith;
    exactly = λ e i. omega arith;
    guarded = tt;
    few = omega arith;
  }

  module _ (req : CombineRequest MetaProof)
      (f : Two vm v records eager w.riscv_convert.riscv_vk t req) where
    abbrev res : CombineResponse MetaProof
    res = joint vm req f.left f.right

    joint-exact :
        v.attested res.proof.inner ≡ slice records f.left.start_chunk (suc f.right.end_chunk)
    joint-exact =
        v.two_attests f.left.inner f.right.inner req.flag_complete
        ∙ ap₂ ◌++◌ f.left_exact.exact
            (f.right_exact.exact ∙ ap (λ k. slice records k (suc f.right.end_chunk)) f.adjacent)
        ∙ slice-append records f.left.start_chunk (suc f.left.end_chunk) (suc f.right.end_chunk)
            (omega (arith, f.left_order)) (omega (arith, f.adjacent, f.right_order))

    Work-combine :
        (id ip : Text)
        → (Sure vm v records eager w.riscv_convert.riscv_vk
            → ¬ (IsWhole vm v records eager w.riscv_convert.riscv_vk res.proof))
        → Work
            (combine (CombineMsg.request req) id ip)
            (answer vm (combine (CombineMsg.response res) id ip))
    Work-combine id ip part = record {
      fit = (
        record {
          held = f.left ∷ f.right ∷ [];
          node = f.node;
          answers = (refl, refl, record { exact = joint-exact; part = part });
        },
        (tt, tt),
      );
      at_most = λ i. omega arith;
      exactly = λ e i. omega arith;
      guarded = tt;
      few = omega arith;
    }

    -- The proofs of a final combine attest the first records.
    pub joint-final :
        req.flag_complete ≡ true → v.attested res.proof.inner ≡ take (suc f.right.end_chunk) records
    joint-final flag =
        joint-exact
        ∙ ap (λ k. slice records k (suc f.right.end_chunk)) (f.whole flag).0
        ∙ ap (λ n. take n records) {y = suc f.right.end_chunk} (omega arith)

    -- The embed proof of a final combine attests them too.
    embed-Good :
        {e : EmbedResponse EmbedProof}
        → req.flag_complete ≡ true
        → finish vm res ≡ ok e
        → Good vm v records eager w.riscv_convert.riscv_vk e.proof.inner
    embed-Good flag h =
        let (low, final) = f.whole flag in
        record {
          hi = suc f.right.end_chunk;
          many = omega (arith, f.adjacent, f.right_order);
          final = final;
          exact = finish-attested vm v res h ∙ joint-final flag;
        }

    Work-deliver :
        (id ip : Text) {e : EmbedResponse EmbedProof}
        → req.flag_complete ≡ true
        → finish vm res ≡ ok e
        → Work (combine (CombineMsg.request req) id ip) (deliver vm w res id ip e)
    unfolding deliver
    Work-deliver id ip {e} flag h =
        elim (Bool-cases (vm.verify_embed e.proof.inner w.riscv_convert.riscv_vk)) [
          | inl y ↦ rw (y) (record {
            fit = (embed-Good flag h, (tt, tt));
            at_most = λ i. omega arith;
            exactly = λ x i. absurd (omega arith);
            guarded = tt;
            few = omega arith;
          })
          | inr n ↦ rw (n) (
              Work-combine id ip λ sure whole.
                let exact = finish-attested vm v res h ∙ joint-final flag in
                let all = ap (λ n. take n records) whole.1 ∙ take_all records in
                let y = sure.verifies e.proof.inner (exact ∙ all) in cc)
        ]

    Work-joined :
        (id ip : Text) {r : Reaction vm}
        → handle vm w (combine (CombineMsg.request req) id ip) ≡ ok r
        → Work (combine (CombineMsg.request req) id ip) r
    unfolding handle
    Work-joined id ip {r} h =
        let h' = rw (process-adjacent vm req f.left f.right v.room f.pair f.adjacent) at h in
        if-cases_eq req.flag_complete _ _ h'
          (λ flag g.
            let (e, made, same) = map-eq-ok (finish vm res) (deliver vm w res id ip) g in
            subst (Work (combine (CombineMsg.request req) id ip)) same
              (Work-deliver id ip flag made))
          (λ unset g.
            let same : answer vm (combine (CombineMsg.response res) id ip) ≡ r = cc in
            subst (Work (combine (CombineMsg.request req) id ip)) same
              (Work-combine id ip (λ _ whole. let y = f.last whole.0 whole.1 in cc)))

  -- What a worker does with a message that fits.
  pub handle-Work :
      (m : Msg vm) {r : Reaction vm}
      → handle vm w m ≡ ok r
      → Fits vm v records eager w.riscv_convert.riscv_vk t m
      → Work m r
  unfolding handle
  handle-Work (riscv (RiscvMsg.request req) id ip) {r} h f =
      let same : answer vm (
            riscv (RiscvMsg.response (RiscvConvert.process vm w.riscv_convert req w.vk_root)) id ip)
          ≡ r =
        cc in
      subst (Work (riscv (RiscvMsg.request req) id ip)) same (Work-riscv req id ip f)
  handle-Work (riscv (RiscvMsg.response req) id ip) h f = cc
  handle-Work (combine (CombineMsg.request req) id ip) h f = Work-joined req f id ip h
  handle-Work (combine (CombineMsg.response req) id ip) h f = cc
  handle-Work (embed e) h f = cc
  handle-Work exit {r} h f =
      let same : record { sent = []; goes_on = false } ≡ r = cc in
      subst (Work exit) same (record {
        fit = tt;
        at_most = λ i. omega arith;
        exactly = λ e i. refl;
        guarded = tt;
        few = omega arith;
      })
  handle-Work request_task h f = cc
  handle-Work emulator_complete h f = cc
  handle-Work (close ip) h f = cc
