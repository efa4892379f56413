-- ===== src/Ds/Requests.antt =====
-- The requests that data storage makes of the device.
use iol_hat.Base.{ℕ, [], ◌∷◌}
use iol_hat.Ds.State.{Command, command_value, Call, Port, emit}

-- `DS_PARAM_INDEX` and the subindices of the data storage parameter.
abbrev pub param_index : ℕ
param_index = 3

abbrev pub subindex_cmd : ℕ
subindex_cmd = 1

abbrev pub subindex_state : ℕ
subindex_state = 2

abbrev pub subindex_size : ℕ
subindex_size = 3

abbrev pub subindex_checksum : ℕ
subindex_checksum = 4

abbrev pub subindex_index_list : ℕ
subindex_index_list = 5

abbrev pub ds_al_read_req : ℕ → ℕ → Port → Port
ds_al_read_req index subindex p =
    emit (Call.al_read_req index subindex)
      (record p { ds = record p.ds { current_index = index; current_subindex = subindex } })

abbrev pub ds_al_write_ds_cmd_req : Command → Port → Port
ds_al_write_ds_cmd_req cmd p =
    emit (Call.al_write_req param_index subindex_cmd 1 (command_value cmd ∷ [])) (record p {
      ds = record p.ds {
        current_index = param_index;
        current_subindex = subindex_cmd;
        command = cmd;
      };
    })
