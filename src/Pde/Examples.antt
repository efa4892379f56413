-- ===== src/Pde/Examples.antt =====
-- Requests for process data on small inputs, and the theorems at such inputs.
use iol_hat.Base.{ℕ, ◌≡◌, refl, false, List, [], ◌∷◌}
use iol_hat.Types.{IolinkError, PortStatusInfo}
use iol_hat.Types.ArgBlock
use iol_hat.Pde.State.{State, Lower, ArgBlockPdout, Port}
use iol_hat.Pde.Requests.{pde_smi_pdout_req, pde_smi_pdinout_req}
use iol_hat.Pde.Answers.{IsAnswered, pdout-IsAnswered}
use iol_hat.Pde.Answers.{pdinout_silent}

-- Layers below that keep the output data, and refuse to tell their validity.
abbrev memory : Lower (List ℕ)
memory = record {
  al_get_input_req = λ s. (IolinkError.none, (2, 5 ∷ 6 ∷ []));
  al_get_input_output_req = λ s. (IolinkError.none, (3, 1 ∷ 5 ∷ 0 ∷ []));
  al_set_output_req = λ bytes s. (bytes, IolinkError.none);
  al_control_req = λ code s. (s, IolinkError.state_conflict);
  read_di = λ s. 1;
  write_do = λ b s. s;
}

abbrev port_in : State → PortStatusInfo → Port (List ℕ)
port_in s status = record {
  state = s;
  output_enable = false;
  port_quality_info = 0;
  port_status_info = status;
  lower = [];
  out = [];
}

abbrev out_block : ArgBlockPdout
out_block = record { id = ArgBlock.pd_out; oe = 1; len = 2; bytes = 3 ∷ 4 ∷ [] }

pdout-IsAnswered_example : IsAnswered (port_in State.pd_active PortStatusInfo.op) (
    pde_smi_pdout_req memory ArgBlock.void_block 6 out_block
      (port_in State.pd_active PortStatusInfo.op))
pdout-IsAnswered_example =
    pdout-IsAnswered memory ArgBlock.void_block 6 out_block
      (port_in State.pd_active PortStatusInfo.op)

pdinout_silent_example :
    pde_smi_pdinout_req memory ArgBlock.pd_in_out ArgBlock.sizeof_void ArgBlock.void_block
      (port_in State.inactive PortStatusInfo.di)
    ≡ (port_in State.inactive PortStatusInfo.di, IolinkError.none)
pdinout_silent_example = pdinout_silent memory (port_in State.inactive PortStatusInfo.di) refl
