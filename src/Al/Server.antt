-- ===== src/Al/Server.antt =====
-- The application layer as a server that works on one request at a time.
use iol_hat.Base.{ℕ, ◌==◌, leb, if◌then◌else◌, List, [], ◌∷◌, ◌++◌, Bool, true, false}
use iol_hat.Base.{Option, none, some}
use iol_hat.Types.Dl.{Direction}
use iol_hat.Al.Jobs.{Job}

-- The two ways to reach the device: direct parameters and service data units.
pub data Channel : Type 0 where
  param isdu : Channel

-- A client's request: which way it goes, its direction, and who asked.
pub record Request : Type 0 where
  pub channel : Channel
  pub direction : Direction
  pub client : ℕ

-- An answer to a client.
pub record Answer : Type 0 where
  pub direction : Direction
  pub client : ℕ

-- A server that is free, or works on a request.
abbrev pub Server : Type 0
Server = Option Request

abbrev pub answer : Request → Answer
answer r = record { direction = r.direction; client = r.client }

-- A request is taken by a free server, and answered at once by a busy one.
abbrev pub ask : Request → Server → Server × List Answer
ask r none = (some r, [])
ask r (some s) = (some s, answer r ∷ [])

-- A request that cannot be served is answered at once in any case.
abbrev pub refuse : Request → Server → Server × List Answer
refuse r server = (server, answer r ∷ [])

abbrev same_channel : Channel → Channel → Bool
same_channel Channel.param Channel.param = true
same_channel Channel.isdu Channel.isdu = true
same_channel _ _ = false

-- The device's answer on a channel ends the request that went that way.
abbrev pub complete : Channel → Server → Server × List Answer
complete c none = (none, [])
complete c (some r) = if same_channel c r.channel then (none, answer r ∷ []) else (some r, [])

abbrev pub cancel : Server → Server × List Answer
cancel none = (none, [])
cancel (some r) = (none, answer r ∷ [])

abbrev read_channel : ℕ → Channel
read_channel index = if leb index 1 then Channel.param else Channel.isdu

abbrev write_channel : ℕ → Channel
write_channel index = if leb index 1 then Channel.param else Channel.isdu

-- What each job is for the server. A write to index 0 cannot be served.
abbrev pub serve : Job → Server → Server × List Answer
serve (Job.al_read_req index subindex client) server =
    ask (record { channel = read_channel index; direction = Direction.read; client = client })
      server
serve (Job.al_write_req index subindex len bytes client) server =
    let r : Request = record {
      channel = write_channel index;
      direction = Direction.write;
      client = client;
    } in
    if index == 0 then refuse r server else ask r server
serve (Job.dl_readparam_cnf val stat) server = complete Channel.param server
serve (Job.dl_writeparam_cnf stat) server = complete Channel.param server
serve (Job.dl_isdu_trans_cnf stat qualifier) server = complete Channel.isdu server
serve Job.al_abort server = cancel server
serve _ server = (server, [])

-- The server's states and answers along a list of jobs, the answers latest first.
abbrev pub serve_all : List Job → Server → List Answer → Server × List Answer
serve_all [] server given = (server, given)
serve_all (j ∷ js) server given = serve_all js (serve j server).0 ((serve j server).1 ++ given)
