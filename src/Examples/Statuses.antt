-- ===== src/Examples/Statuses.antt =====
-- Statuses of Table 5-2 and their names.
use siphon_smpp.Common.{◌≡◌, refl, ok}
use siphon_smpp.Status.{esme_rthrottled, code, parse_smpp_status, status_name}
use siphon_smpp.Status.Names.{parse-status_name}
use siphon_smpp.Examples.Fixtures.{from_command_status}

read_back : from_command_status (code esme_rthrottled) ≡ esme_rthrottled
read_back = refl

parse-status_name_example :
    parse_smpp_status (status_name from_command_status (code esme_rthrottled)) ≡ ok esme_rthrottled
parse-status_name_example = parse-status_name from_command_status esme_rthrottled read_back
