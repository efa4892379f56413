-- ===== src/Al/Errors.antt =====
-- The error that a client is told: the first two functions of ilink/iolink_al.c.
use iol_hat.Base.{◌*◌, Bool, true, false, ◌==◌, if◌then◌else◌, get_or, bit_or}
use iol_hat.Types.{SmiErrortype}
use iol_hat.Types.SmiError
use iol_hat.Types.Dl.{Status, Direction, no_service}
use iol_hat.Types.Dl.{write_response_neg, write_response_pos, read_response_neg, read_response_pos}
use iol_hat.Al.State.{Service}

unfoldable pub al_status_to_errortype : Status → SmiErrortype
al_status_to_errortype Status.no_error = SmiError.no_error
al_status_to_errortype Status.isdu_illegal_service_primitive = SmiError.m_isdu_illegal
al_status_to_errortype Status.invalid = SmiError.com_err
al_status_to_errortype Status.isdu_checksum_error = SmiError.m_isdu_checksum
al_status_to_errortype Status.isdu_timeout = SmiError.i_service_timeout
al_status_to_errortype _ = SmiError.app_dev

-- The two bytes that a device sends with a negative response.
unfoldable pub device_error : Service → SmiErrortype
device_error s =
    if s.data_len == 2
    then bit_or (get_or s.data_read 0 0 * 256) (get_or s.data_read 1 0)
    else SmiError.app_dev

abbrev pub is_no_error : Status → Bool
is_no_error Status.no_error = true
is_no_error _ = false

-- The `switch` statements on the qualifier.
unfoldable pub qualifier_error : Direction → Service → SmiErrortype
unfolding device_error
qualifier_error Direction.read s =
    if s.qualifier == read_response_neg
    then device_error s
    else (if s.qualifier == read_response_pos then SmiError.no_error else SmiError.app_dev)
qualifier_error Direction.write s =
    if s.qualifier == write_response_neg
    then device_error s
    else (if s.qualifier == write_response_pos
        then SmiError.no_error
        else (if s.qualifier == no_service
            then (if is_no_error s.errinfo then SmiError.com_err else SmiError.no_error)
            else SmiError.no_error))

abbrev isdu_error : Status → Service → SmiErrortype
unfolding qualifier_error
isdu_error Status.isdu_checksum_error s = SmiError.m_isdu_checksum
isdu_error _ s = qualifier_error s.direction s

unfoldable pub al_err_to_errortype : Service → Bool → SmiErrortype
unfolding qualifier_error al_status_to_errortype
al_err_to_errortype s is_isdu =
    let errortype = if is_isdu then isdu_error s.errinfo s else SmiError.no_error in
    if errortype == SmiError.no_error then al_status_to_errortype s.errinfo else errortype
