-- ===== src/Al/ProcessData.antt =====
-- Process data in the application layer: the input that the device sent last, and the functions
-- that hand output and control codes on to the data link layer.
use iol_hat.Base.{ℕ, ◌+◌, leb, List, [], ◌∷◌, ◌++◌, take, overwrite, u8}
use iol_hat.Types.{IolinkError}
use iol_hat.Types.Dl.{Controlcode}
use iol_hat.Al.State.{Call, Port, emit, assert}

unfoldable pub dl_pd_input_transport_ind : List ℕ → ℕ → Port → Port
dl_pd_input_transport_ind pdin_data length p =
    let q = assert (leb length 32) p in
    let r = record q {
      al = record q.al {
        pdin_data = overwrite q.al.pdin_data 0 (take length pdin_data);
        pdin_data_len = length;
      };
    } in
    emit Call.al_new_input_ind (emit (Call.pd_event length pdin_data) r)

-- The length and the bytes that are copied to the caller.
unfoldable pub al_get_input_req : Port → IolinkError × (ℕ × List ℕ)
al_get_input_req p =
    (IolinkError.none, (p.al.pdin_data_len, take p.al.pdin_data_len p.al.pdin_data))

-- What the layer uses of the data link layer's process data, with its state.
pub record DlProcessData (D : Type 0) : Type 0 where
  pub dl_pd_output_get_req : D → IolinkError × (ℕ × List ℕ)
  pub dl_pd_output_update_req : List ℕ → D → D × IolinkError
  pub dl_control_req : Controlcode → D → D × IolinkError

module _ {D : Type 0} (dl : DlProcessData D) where
  -- The bytes of input and output behind their lengths, and the length that is set without error.
  unfoldable pub input_output : IolinkError → ℕ → List ℕ → Port → IolinkError × (ℕ × List ℕ)
  input_output IolinkError.none out_len output p =
      let pdin_len = p.al.pdin_data_len in
      (
        IolinkError.none,
        (
          u8 (1 + pdin_len + 1 + out_len),
          pdin_len ∷ (take pdin_len p.al.pdin_data ++ (out_len ∷ take out_len output)),
        ),
      )
  input_output error out_len output p = (error, (0, []))

  unfoldable pub al_get_input_output_req : Port → D → IolinkError × (ℕ × List ℕ)
  unfolding input_output
  al_get_input_output_req p d =
      let (error, (out_len, output)) = dl.dl_pd_output_get_req d in
      input_output error out_len output p

  unfoldable pub al_set_output_req : List ℕ → D → D × IolinkError
  al_set_output_req bytes d = dl.dl_pd_output_update_req bytes d

  unfoldable pub al_control_req : Controlcode → D → D × IolinkError
  al_control_req controlcode d = dl.dl_control_req controlcode d
