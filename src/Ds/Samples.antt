-- ===== src/Ds/Samples.antt =====
-- Small states, parameters and answers of data storage.
use iol_hat.Base.{ℕ, refl, true, false, arith, List, [], ◌∷◌}
use iol_hat.Base.{replicate, length-replicate}
use iol_hat.Types.{DsFault}
use iol_hat.Ds.State.{State, Command, Entry, Ds, Port, max_size}
use iol_hat.Ds.State.{index_list_max_entries}
use iol_hat.Ds.Store.{Param, IsParam, All}
use iol_hat.Ds.Session.{IsListOf, IsSized}
use iol_hat.Ds.Upload.{IsOther}

abbrev pub fresh : Ds
fresh = record {
  state = State.check_activation_state;
  fault = DsFault.none;
  ds_enable = false;
  ds_upload = false;
  ds_download = true;
  device_ds = record { cs = 0; size_max = 0; state_property = 0 };
  master_ds = record {
    cs = 0;
    vid = 0;
    did = 0;
    fid = 0;
    valid = false;
    size = 0;
    size_max = max_size;
    pos = 0;
    bytes = replicate max_size 0;
  };
  index_list = record {
    count = 0;
    pos = 0;
    entries = replicate index_list_max_entries (record { index = 0; subindex = 0 });
  };
  command = Command.res;
  current_index = 16;
  current_subindex = 0;
  pending_vendorid = 1;
  pending_deviceid = 2;
}

abbrev pub port_in : State → Port
port_in s = record { ds = record fresh { state = s }; vendorid = 1; deviceid = 2; out = [] }

abbrev pub name_param : Param
name_param = record { index = 16; subindex = 0; bytes = 1 ∷ 2 ∷ [] }

abbrev pub speed_param : Param
speed_param = record { index = 17; subindex = 2; bytes = 7 ∷ [] }

abbrev pub params : List Param
params = name_param ∷ speed_param ∷ []

abbrev pub list_bytes : List ℕ
list_bytes = 0 ∷ 16 ∷ 0 ∷ 0 ∷ 17 ∷ 2 ∷ 0 ∷ 0 ∷ []

abbrev pub sum : List ℕ
sum = 0 ∷ 0 ∷ 0 ∷ 9 ∷ []

abbrev pub other_sum : List ℕ
other_sum = 0 ∷ 0 ∷ 0 ∷ 8 ∷ []

abbrev pub size : List ℕ
size = 0 ∷ 0 ∷ 4 ∷ 0 ∷ []

pub params-IsParam : All IsParam params
params-IsParam = (
  record { index_u16 = omega arith; len_u8 = omega arith },
  (record { index_u16 = omega arith; len_u8 = omega arith }, tt),
)

pub params-IsOther : All IsOther params
params-IsOther = (refl, (refl, tt))

pub params-IsListOf : IsListOf params list_bytes
params-IsListOf = record {
  rest = [];
  encoded = refl;
  entries = (
    record { not_end = omega arith; index_u16 = omega arith },
    (record { not_end = omega arith; index_u16 = omega arith }, tt),
  );
  few = omega arith;
}

pub port-IsSized : (s : State) → IsSized (port_in s)
port-IsSized s =
    let entry : Entry = record { index = 0; subindex = 0 } in
    record {
      bytes = length-replicate {A = ℕ} max_size 0;
      entries = length-replicate index_list_max_entries entry;
    }
