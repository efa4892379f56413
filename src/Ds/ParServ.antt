-- ===== src/Ds/ParServ.antt =====
-- A client that stores a data set itself, by ParServToDS.
use iol_hat.Base.{ℕ, ◌+◌, ◌<◌, ◌≡◌, refl, ◌∷◌, arith, true, false}
use iol_hat.Base.{length, take, take_all, overwrite, take-overwrite_block, ◌==◌, ltb, ◌%◌}
use iol_hat.Types.{IolinkError}
use iol_hat.Types.ArgBlock
use iol_hat.Ds.State.{State, Call, Port, emit, max_size}
use iol_hat.Ds.Api.{ArgBlockDsData, ds_data_len, ds_smi_par_serv_to_ds_req}

-- What a client's data set must be: no longer than a byte can count, and all of it in the block.
pub record IsDataSet (arg_block_len : ℕ) (block : ArgBlockDsData) : Type 0 where
  pub id : block.id ≡ ArgBlock.ds_data
  pub len : arg_block_len ≡ length block.ds_data + ArgBlock.sizeof_ds_data
  pub short : length block.ds_data < 256

pub record IsStored (p q : Port) (block : ArgBlockDsData) : Type 0 where
  pub bytes : take q.ds.master_ds.size q.ds.master_ds.bytes ≡ block.ds_data
  pub size : q.ds.master_ds.size ≡ length block.ds_data
  pub vid : q.ds.master_ds.vid ≡ block.vid
  pub did : q.ds.master_ds.did ≡ block.did
  pub cs : q.ds.master_ds.cs ≡ 0
  pub valid : q.ds.master_ds.valid ≡ true
  pub state : q.ds.state ≡ p.ds.state
  pub out : q.out ≡ Call.smi_voidblock_cnf block.id ∷ p.out

abbrev stored : ℕ → ArgBlockDsData → Port → Port
stored n block p = emit (Call.smi_voidblock_cnf block.id) (record p {
  ds = record p.ds {
    master_ds = record p.ds.master_ds {
      bytes = overwrite p.ds.master_ds.bytes 0 (take n block.ds_data);
      cs = 0;
      vid = block.vid;
      did = block.did;
      fid = block.fid;
      valid = true;
      size = n;
    };
  };
})

accepted :
    (p : Port) (len : ℕ) (block : ArgBlockDsData)
    → (block.id == ArgBlock.ds_data) ≡ true
    → ltb p.ds.master_ds.size_max (ds_data_len len) ≡ false
    → ds_smi_par_serv_to_ds_req ArgBlock.void_block len block p
      ≡ (stored (ds_data_len len) block p, IolinkError.none)
unfolding ds_smi_par_serv_to_ds_req
accepted p len block e f = rw (e, f) refl

-- A data set of fewer than 256 bytes is stored whole, is valid, and is confirmed to the client.
pub par_serv-IsStored :
    (p : Port) (len : ℕ) (block : ArgBlockDsData)
    → IsDataSet len block
    → length p.ds.master_ds.bytes ≡ max_size
    → p.ds.master_ds.size_max ≡ max_size
    → let r = ds_smi_par_serv_to_ds_req ArgBlock.void_block len block p in
      IsStored p r.0 block × (r.1 ≡ IolinkError.none)
par_serv-IsStored p len block d l m =
    let n : ds_data_len len ≡ length block.ds_data = omega (arith, d.len, d.short) in
    let whole : take (length block.ds_data) block.ds_data ≡ block.ds_data =
      take_all (length block.ds_data) block.ds_data (omega arith) in
    let front : take (length block.ds_data)
          (overwrite p.ds.master_ds.bytes 0 (take (length block.ds_data) block.ds_data))
        ≡ block.ds_data =
      rw whole (
        take-overwrite_block p.ds.master_ds.bytes 0 (length block.ds_data) block.ds_data
          (omega arith) (omega (arith, d.short, l))) in
    rw (accepted p len block (ground (arith, d.id)) (ground (arith, n, d.short, m)), n)
      (
        record {
          bytes = front;
          size = refl;
          vid = refl;
          did = refl;
          cs = refl;
          valid = refl;
          state = refl;
          out = refl;
        },
        refl,
      )

-- Whatever length the client gives, a data set with the right blocks is confirmed, and what is
-- stored of it has the length less the head's 14 bytes, taken modulo 256: the test on the size
-- never refuses one.
pub par_serv_truncates :
    (p : Port) (len : ℕ) (block : ArgBlockDsData)
    → block.id ≡ ArgBlock.ds_data
    → p.ds.master_ds.size_max ≡ max_size
    → let r = ds_smi_par_serv_to_ds_req ArgBlock.void_block len block p in
      (r.1 ≡ IolinkError.none)
      × (r.0.ds.master_ds.size ≡ (len + 242) % 256)
      × (r.0.ds.master_ds.valid ≡ true)
      × (r.0.out ≡ Call.smi_voidblock_cnf block.id ∷ p.out)
par_serv_truncates p len block e m =
    rw (accepted p len block (ground (arith, e)) (ground (arith, m)))
      (refl, omega arith, refl, refl)
