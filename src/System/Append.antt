-- ===== src/System/Append.antt =====
-- Messages counted and checked over a list in two parts.
use pico_proving_service.Prelude.{◌+◌, ◌≡◌, List, [], ◌∷◌, ◌++◌, arith}
use pico_proving_service.Messages.{
  GatewayMsg, riscv, combine, embed, exit, close, request_task, emulator_complete, RiscvMsg,
  CombineMsg,
}
use pico_proving_service.System.Flight.{Guarded}
use pico_proving_service.System.Invariant.{embeds}

module _ {P R E : Type 0} where
  pub embeds-append : (xs ys : List (GatewayMsg P R E)) → embeds (xs ++ ys) ≡ embeds xs + embeds ys
  embeds-append [] ys = omega arith
  embeds-append (embed _ ∷ xs) ys = omega (arith, embeds-append xs ys)
  embeds-append (riscv _ _ _ ∷ xs) ys = embeds-append xs ys
  embeds-append (combine _ _ _ ∷ xs) ys = embeds-append xs ys
  embeds-append (exit ∷ xs) ys = embeds-append xs ys
  embeds-append (request_task ∷ xs) ys = embeds-append xs ys
  embeds-append (emulator_complete ∷ xs) ys = embeds-append xs ys
  embeds-append (close _ ∷ xs) ys = embeds-append xs ys

  pub Guarded-append :
      (xs ys : List (GatewayMsg P R E)) → Guarded xs → Guarded ys → Guarded (xs ++ ys)
  Guarded-append [] ys g h = h
  Guarded-append (embed _ ∷ xs) ys g h = tt
  Guarded-append (riscv (RiscvMsg.request _) _ _ ∷ xs) ys g h = absurd g
  Guarded-append (riscv (RiscvMsg.response _) _ _ ∷ xs) ys g h = Guarded-append xs ys g h
  Guarded-append (combine (CombineMsg.request _) _ _ ∷ xs) ys g h = absurd g
  Guarded-append (combine (CombineMsg.response _) _ _ ∷ xs) ys g h = Guarded-append xs ys g h
  Guarded-append (exit ∷ xs) ys g h = absurd g
  Guarded-append (request_task ∷ xs) ys g h = Guarded-append xs ys g h
  Guarded-append (emulator_complete ∷ xs) ys g h = absurd g
  Guarded-append (close _ ∷ xs) ys g h = absurd g
