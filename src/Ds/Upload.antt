-- ===== src/Ds/Upload.antt =====
-- One step of an upload session: the device's answer for a parameter is stored, and the next one is
-- asked for.
use iol_hat.Base.{ℕ, suc, ◌+◌, ◌≤◌, ◌<◌, ◌≡◌, refl, ap, ◌∙◌, false, ◌==◌, ◌&&◌, arith}
use iol_hat.Base.{List, [], ◌∷◌, ◌++◌, map, length, take, drop, get_or, length-append}
use iol_hat.Base.Slices.{get_or-drop, drop-drop}
use iol_hat.Types.SmiError
use iol_hat.Fsm.{iteration, event_loop}
use iol_hat.Ds.State.{State, Event, Entry, IndexList, Ds, Call, Port, max_size}
use iol_hat.Ds.State.{index_list_max_entries}
use iol_hat.Ds.Actions.{ds_upload, ds_readparam, ds_store_data}
use iol_hat.Ds.Table.{iolink_ds_fsm, iolink_ds_event}
use iol_hat.Ds.Jobs.{Job, callback}
use iol_hat.Ds.ReadDone.{store_parameter}
use iol_hat.Ds.Store.{Param, IsParam, size_of, encode, IsAppended}
use iol_hat.Ds.Store.{store_parameter-IsAppended}

abbrev pub entry_of : Param → Entry
entry_of r = record { index = r.index; subindex = r.subindex }

abbrev pub read_ok : Param → Job
read_ok r = Job.al_read_cnf (size_of r) r.bytes SmiError.no_error

-- The address of a parameter is not that of the index list itself.
abbrev pub IsOther : Param → Type 0
IsOther r = (r.index == 3 && r.subindex == 5) ≡ false

-- The parameter `r` was asked for, `rs` are to follow, and `done` is stored.
pub record IsReading (p : Port) (r : Param) (rs : List Param) (done : List ℕ) : Type 0 where
  pub state : p.ds.state ≡ State.read_parameter
  pub current_index : r.index ≡ p.ds.current_index
  pub current_subindex : r.subindex ≡ p.ds.current_subindex
  pub entries :
      take (length rs) (drop p.ds.index_list.pos p.ds.index_list.entries) ≡ map entry_of rs
  pub count : p.ds.index_list.count ≡ p.ds.index_list.pos + length rs
  pub few : p.ds.index_list.count < index_list_max_entries
  pub kept : length p.ds.master_ds.bytes ≡ max_size
  pub stored : take p.ds.master_ds.pos p.ds.master_ds.bytes ≡ done
  pub pos : p.ds.master_ds.pos ≡ length done

-- What an upload leaves alone until it is complete.
pub record IsSame (p q : Port) : Type 0 where
  pub vendorid : q.ds.pending_vendorid ≡ p.ds.pending_vendorid
  pub deviceid : q.ds.pending_deviceid ≡ p.ds.pending_deviceid

-- The answer goes into the store, and the event READ_DONE follows.
stored_port : Port → Param → Port
stored_port p r = record p { ds = store_parameter (size_of r) r.bytes p.ds }

read_ok-event :
    (p : Port) (r : Param)
    → p.ds.state ≡ State.read_parameter
    → (p.ds.current_index == 3 && p.ds.current_subindex == 5) ≡ false
    → callback (read_ok r) p ≡ iolink_ds_event (stored_port p r) Event.read_done
unfolding callback stored_port
read_ok-event p r s o = ground arith

-- The store touches nothing but the stored data.
stored_port-ds :
    (p : Port) (r : Param)
    → let q = stored_port p r in q.ds ≡ record p.ds { master_ds = q.ds.master_ds }
unfolding stored_port store_parameter
stored_port-ds p r = ground arith

pub record IsNext (p q : Port) (e : Entry) : Type 0 where
  pub state : q.ds.state ≡ State.read_parameter
  pub current_index : e.index ≡ q.ds.current_index
  pub current_subindex : e.subindex ≡ q.ds.current_subindex
  pub list_pos : q.ds.index_list.pos ≡ p.ds.index_list.pos + 1
  pub list_count : q.ds.index_list.count ≡ p.ds.index_list.count
  pub list_entries : q.ds.index_list.entries ≡ p.ds.index_list.entries
  pub master : q.ds.master_ds ≡ p.ds.master_ds
  pub out : q.out ≡ Call.al_read_req e.index e.subindex ∷ p.out
  pub same : IsSame p q

pub answer_more :
    (p : Port) (e : Entry)
    → p.ds.state ≡ State.read_parameter
    → p.ds.index_list.pos < p.ds.index_list.count
    → p.ds.index_list.count < index_list_max_entries
    → get_or p.ds.index_list.entries p.ds.index_list.pos (record { index = 0; subindex = 0 }) ≡ e
    → IsNext p (iolink_ds_event p Event.read_done) e
unfolding iolink_ds_event event_loop iteration iolink_ds_fsm ds_upload ds_readparam
answer_more p e s h k g = ground arith

pub record IsLast (p q : Port) : Type 0 where
  pub state : q.ds.state ≡ State.store_data_set
  pub master : q.ds.master_ds ≡ record p.ds.master_ds { size = p.ds.master_ds.pos }
  pub out : q.out ≡ Call.al_read_req 3 4 ∷ p.out
  pub same : IsSame p q

pub answer_final :
    (p : Port)
    → p.ds.state ≡ State.read_parameter
    → p.ds.index_list.count ≤ p.ds.index_list.pos
    → IsLast p (iolink_ds_event p Event.read_done)
unfolding iolink_ds_event event_loop iteration iolink_ds_fsm ds_upload ds_store_data
answer_final p s h = ground arith

-- The head and the rest of a prefix, at the head and behind it.
take_head :
    (xs : List Entry) (n : ℕ) (y : Entry) (ys : List Entry) (d : Entry)
    → take (suc n) xs ≡ y ∷ ys
    → (get_or xs 0 d ≡ y) × (take n (drop 1 xs) ≡ ys)
take_head [] n y ys d e = cc
take_head (x ∷ xs) n y ys d e = ground arith

pub entry_at :
    (xs : List Entry) (i n : ℕ) (y : Entry) (ys : List Entry) (d : Entry)
    → take (suc n) (drop i xs) ≡ y ∷ ys
    → (get_or xs i d ≡ y) × (take n (drop (i + 1) xs) ≡ ys)
entry_at xs i n y ys d e =
    let h = take_head (drop i xs) n y ys d e in
    (get_or-drop xs i 0 d (omega arith) ∙ h.0, ap (λ zs. take n zs) (drop-drop xs i 1 refl) ∙ h.1)

-- One more answer of an upload that goes on: the next parameter is asked for.
pub IsReading-more :
    (p : Port) (r r' : Param) (rs : List Param) (done : List ℕ)
    → IsOther r
    → IsParam r
    → length done + length (encode r) ≤ max_size
    → IsReading p r (r' ∷ rs) done
    → let q = callback (read_ok r) p in
      IsReading q r' rs (done ++ encode r)
      × (q.out ≡ Call.al_read_req r'.index r'.subindex ∷ p.out)
      × IsSame p q
unfolding stored_port
IsReading-more p r r' rs done o v room a =
    let d : Entry = record { index = 0; subindex = 0 } in
    let l = p.ds.index_list in
    let next = entry_at l.entries l.pos (length rs) (entry_of r') (map entry_of rs) d a.entries in
    let mid = stored_port p r in
    let keep = stored_port-ds p r in
    let app : IsAppended p.ds mid.ds r =
      (store_parameter-IsAppended p.ds r a.current_index a.current_subindex v.len_u8 a.kept).0
        (rw a.pos room) in
    let list = ap (λ (ds : Ds). ds.index_list) keep in
    let pos = ap (λ (m : IndexList). m.pos) list in
    let count = ap (λ (m : IndexList). m.count) list in
    let n =
      answer_more mid (entry_of r') (ap (λ (ds : Ds). ds.state) keep ∙ a.state)
        (rw list (omega (arith, a.count))) (rw list (omega (arith, a.few))) (rw list next.0) in
    rw (read_ok-event p r a.state (rw (← a.current_index, ← a.current_subindex) o)) (
      record {
        state = n.state;
        current_index = n.current_index;
        current_subindex = n.current_subindex;
        entries = rw (n.list_pos, n.list_entries, list) next.1;
        count = omega (arith, n.list_count, n.list_pos, a.count, pos, count);
        few = omega (arith, n.list_count, a.few, count);
        kept = rw n.master app.kept;
        stored = rw n.master (app.front ∙ ap (λ xs. xs ++ encode r) a.stored);
        pos = rw n.master (app.pos ∙ omega (arith, a.pos, length-append done (encode r)));
      },
      n.out,
      record {
        vendorid = n.same.vendorid ∙ ap (λ (ds : Ds). ds.pending_vendorid) keep;
        deviceid = n.same.deviceid ∙ ap (λ (ds : Ds). ds.pending_deviceid) keep;
      },
    )

-- What stands after the last answer: the data set is complete, and the checksum is asked for.
pub record IsComplete (p q : Port) (calls : List Call) (encoded : List ℕ) : Type 0 where
  pub state : q.ds.state ≡ State.store_data_set
  pub stored : take q.ds.master_ds.size q.ds.master_ds.bytes ≡ encoded
  pub size : q.ds.master_ds.size ≡ length encoded
  pub out : q.out ≡ Call.al_read_req 3 4 ∷ calls
  pub same : IsSame p q

pub reading_last :
    (p : Port) (r : Param) (done : List ℕ)
    → IsOther r
    → IsParam r
    → length done + length (encode r) ≤ max_size
    → IsReading p r [] done
    → IsComplete p (callback (read_ok r) p) p.out (done ++ encode r)
unfolding stored_port
reading_last p r done o v room a =
    let mid = stored_port p r in
    let keep = stored_port-ds p r in
    let app : IsAppended p.ds mid.ds r =
      (store_parameter-IsAppended p.ds r a.current_index a.current_subindex v.len_u8 a.kept).0
        (rw a.pos room) in
    let list = ap (λ (ds : Ds). ds.index_list) keep in
    let n =
      answer_final mid (ap (λ (ds : Ds). ds.state) keep ∙ a.state)
        (rw list (omega (arith, a.count))) in
    rw (read_ok-event p r a.state (rw (← a.current_index, ← a.current_subindex) o)) (record {
      state = n.state;
      stored = rw n.master (app.front ∙ ap (λ xs. xs ++ encode r) a.stored);
      size = rw n.master (app.pos ∙ omega (arith, a.pos, length-append done (encode r)));
      out = n.out;
      same = record {
        vendorid = n.same.vendorid ∙ ap (λ (ds : Ds). ds.pending_vendorid) keep;
        deviceid = n.same.deviceid ∙ ap (λ (ds : Ds). ds.pending_deviceid) keep;
      };
    })
