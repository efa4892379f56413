-- ===== src/Main/Ports.antt =====
-- The client's functions: the choice of the port and the checks that come before a request.
use iol_hat.Base.{
  ℕ, ◌+◌, ◌-◌, ◌%◌, ◌≤◌, ◌<◌, ◌≡◌, refl, Bool, Option, some, none, ◌==◌, ◌||◌, ◌&&◌, ltb,
  if◌then◌else◌, arith,
}
use iol_hat.Base.{◌↔◌, ◌⊎◌, inl, inr}
use iol_hat.Types.{IolinkError}
use iol_hat.Types.ArgBlock
use iol_hat.Ode.State.{ArgBlockOd}

-- `the_master`, of which these functions read the number of ports.
abbrev pub Master : Type 0
Master = Option ℕ

-- `uint8_t port_index = portnumber - 1`.
abbrev pub port_index : ℕ → ℕ
port_index portnumber = (portnumber + 255) % 256

-- The error, and the index of the port whose address is given.
unfoldable pub portnumber_to_iolinkport : Master → ℕ → IolinkError × Option ℕ
portnumber_to_iolinkport none portnumber = (IolinkError.state_invalid, none)
portnumber_to_iolinkport (some port_cnt) portnumber =
    if portnumber == 0 || ltb port_cnt (port_index portnumber)
    then (IolinkError.parameter_conflict, none)
    else (IolinkError.none, some (port_index portnumber))

unfoldable pub iolink_get_port : ℕ → ℕ → Option ℕ
iolink_get_port port_cnt portnumber =
    if portnumber == 0 || ltb port_cnt (port_index portnumber)
    then none
    else some (port_index portnumber)

module _ {A : Type 0} where
  with_block : IolinkError × Option ℕ → Option A → IolinkError × Option (ℕ × A)
  with_block (e, none) arg_block = (e, none)
  with_block (e, some i) none = (IolinkError.parameter_conflict, none)
  with_block (e, some i) (some b) = (IolinkError.none, some (i, b))

  -- A request's block, `none` where the client gives NULL, goes on with the port.
  unfoldable pub common_smi_check : Master → ℕ → Option A → IolinkError × Option (ℕ × A)
  unfolding with_block
  common_smi_check m portnumber arg_block =
      with_block (portnumber_to_iolinkport m portnumber) arg_block

module _ {A R : Type 0} where
  -- The error of a check that failed, or what the function returns.
  unfoldable pub go_on :
      IolinkError × Option (ℕ × A) → (ℕ → A → IolinkError × Option R) → IolinkError × Option R
  go_on (e, none) req_fn = (e, none)
  go_on (e, some (i, b)) req_fn = req_fn i b

  -- `SMI_common_req`.
  unfoldable pub smi_common_req :
      Master → ℕ → Option A → (ℕ → A → IolinkError × Option R) → IolinkError × Option R
  unfolding go_on
  smi_common_req m portnumber arg_block smi_req_fn =
      go_on (common_smi_check m portnumber arg_block) smi_req_fn

-- The length of the data is taken from `arg_block_len` without wrapping at 16 bits, so a length
-- below that of the head does not count as 10.
abbrev pub is_bad_length : ℕ → ArgBlockOd → Bool
is_bad_length arg_block_len block = block.index == 24 && arg_block_len == ArgBlock.sizeof_od + 10

module _ {R : Type 0} where
  -- `SMI_DeviceWrite_req`.
  unfoldable pub smi_device_write_req :
      Master
      → ℕ
      → ℕ
      → Option ArgBlockOd
      → (ℕ → ArgBlockOd → IolinkError × Option R)
      → IolinkError × Option R
  unfolding go_on
  smi_device_write_req m portnumber arg_block_len arg_block ode_smi_device_write_req =
      go_on (common_smi_check m portnumber arg_block) (λ i b.
        if is_bad_length arg_block_len b
        then (IolinkError.odlength, none)
        else ode_smi_device_write_req i b)

index_cases : (n : ℕ) → (n ≡ 0) ⊎ (1 ≤ n)
index_cases n = ground arith

given :
    (port_cnt portnumber : ℕ)
    → portnumber < 256
    → portnumber_to_iolinkport (some port_cnt) portnumber ≡ (
        if (portnumber == 0) || ltb (port_cnt + 1) portnumber
        then (IolinkError.parameter_conflict, none)
        else (IolinkError.none, some (portnumber - 1)))
unfolding portnumber_to_iolinkport
given port_cnt portnumber h = elim (index_cases portnumber) [
  | inl z ↦ ground (arith, z)
  | inr n ↦
      let i : port_index portnumber ≡ portnumber - 1 = omega (arith, n) in ground (arith, i, n)
]

-- The port numbers of a byte that are taken are 1 to one more than the number of ports, and the
-- address is that of the port with the index one less: for the last of them that behind the array
-- of ports. Every other number is refused as a conflict of parameters, without an address.
pub portnumber_to_iolinkport_accepts :
    (port_cnt portnumber : ℕ)
    → portnumber < 256
    → (((portnumber_to_iolinkport (some port_cnt) portnumber).0 ≡ IolinkError.none)
        ↔ ((1 ≤ portnumber) × (portnumber ≤ port_cnt + 1)))
      × (portnumber_to_iolinkport (some port_cnt) portnumber ≡ (
          if (portnumber == 0) || ltb (port_cnt + 1) portnumber
          then (IolinkError.parameter_conflict, none)
          else (IolinkError.none, some (portnumber - 1))))
unfolding portnumber_to_iolinkport
portnumber_to_iolinkport_accepts port_cnt portnumber h = (ground arith, given port_cnt portnumber h)

-- The two functions that look up a port agree on every number.
pub iolink_get_port_agrees :
    (port_cnt portnumber : ℕ)
    → iolink_get_port port_cnt portnumber ≡ (portnumber_to_iolinkport (some port_cnt) portnumber).1
unfolding portnumber_to_iolinkport iolink_get_port
iolink_get_port_agrees port_cnt portnumber = ground arith

accepted :
    (port_cnt portnumber : ℕ)
    → 1 ≤ portnumber
    → portnumber ≤ port_cnt + 1
    → portnumber < 256
    → portnumber_to_iolinkport (some port_cnt) portnumber
      ≡ (IolinkError.none, some (portnumber - 1))
unfolding portnumber_to_iolinkport
accepted port_cnt portnumber h k l =
    let i : port_index portnumber ≡ portnumber - 1 = omega arith in ground (arith, i)

rejected :
    (port_cnt portnumber : ℕ)
    → port_cnt + 1 < portnumber
    → portnumber < 256
    → portnumber_to_iolinkport (some port_cnt) portnumber ≡ (IolinkError.parameter_conflict, none)
unfolding portnumber_to_iolinkport
rejected port_cnt portnumber h l = ground arith

no_block :
    {A R : Type 0}
    → (port_cnt portnumber : ℕ) (fn : ℕ → A → IolinkError × Option R)
    → smi_common_req (some port_cnt) portnumber none fn ≡ (IolinkError.parameter_conflict, none)
unfolding smi_common_req common_smi_check portnumber_to_iolinkport with_block go_on
no_block port_cnt portnumber fn = ground arith

-- A request reaches the layer with the port's index and its block exactly when there is a master,
-- the number is from 1 to one more than the number of ports, and the block is not NULL, and then its
-- result is the client's; in the other cases the client gets the error of the check.
pub smi_common_req_cases :
    {A R : Type 0}
    → (port_cnt portnumber : ℕ) (b : A) (fn : ℕ → A → IolinkError × Option R) → portnumber < 256
    → ((1 ≤ portnumber) × (portnumber ≤ port_cnt + 1)
        → smi_common_req (some port_cnt) portnumber (some b) fn ≡ fn (portnumber - 1) b)
      × (smi_common_req none portnumber (some b) fn ≡ (IolinkError.state_invalid, none))
      × (port_cnt + 1 < portnumber
          → smi_common_req (some port_cnt) portnumber (some b) fn
            ≡ (IolinkError.parameter_conflict, none))
      × (smi_common_req (some port_cnt) portnumber none fn ≡ (IolinkError.parameter_conflict, none))
unfolding smi_common_req common_smi_check with_block go_on portnumber_to_iolinkport
smi_common_req_cases port_cnt portnumber b fn h = (
  λ r. rw (accepted port_cnt portnumber r.0 r.1 h) refl,
  refl,
  λ r. rw (rejected port_cnt portnumber r h) refl,
  no_block port_cnt portnumber fn,
)
