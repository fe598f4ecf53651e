-- ===== src/Tests/Windows.antt =====
-- Runs of shared_flow_control_window.cc and protocol_util.cc.
use mod_spdy.Common.{◌+◌, ◌≤◌, ◌≡◌, ◌≢◌, refl, pos, ◌+ℤ◌, ◌-ℤ◌, ◌≤ℤ◌, false, [], ◌∷◌, none, arith}
use mod_spdy.Protocol.Text.{codes, lower, bytes_eq}
use mod_spdy.Protocol.Headers.{find, merge_in_header, assign}
use mod_spdy.SharedWindow.{
  SharedWindow, Quota, create, on_receive_input_data, on_input_data_consumed, request_output_quota,
}
use mod_spdy.SharedWindow.Input
use mod_spdy.SharedWindow.Input.{
  credit_lem, on_input_data_consumed-ne-none, on_input_data_consumed-update,
}
use mod_spdy.SharedWindow.Output
use mod_spdy.SharedWindow.Output.{quota_lem, GivesQuota, request_output_quota-GivesQuota}

abbrev window_160 : SharedWindow
window_160 = record {
  is_aborted = false;
  init_input_window_size = 160;
  input_window_size = 160;
  input_bytes_consumed = 0;
  output_window_size = pos 160;
}

abbrev received_100 : Input.Account
received_100 = record {
  window = record window_160 { input_window_size = 60 };
  received = 100;
  consumed = 0;
  granted = 0;
}

received_100-Reach : Input.Reach 160 received_100
unfolding create on_receive_input_data
received_100-Reach = Input.next Input.here (Input.receives 100 refl)

credit_lem_example : (60 + 100 ≡ 160 + 0) × (100 ≤ 160 + 0) × (60 ≤ 160)
credit_lem_example = credit_lem received_100-Reach

on_input_data_consumed-ne-none_example : on_input_data_consumed 40 received_100.window ≢ none
on_input_data_consumed-ne-none_example =
    on_input_data_consumed-ne-none 40 received_100-Reach (omega arith)

abbrev taken_50 : Output.Account
taken_50 = record {
  window = record window_160 { output_window_size = pos 110 };
  taken = 50;
  allowed = 160;
}

taken_50-Reach : Output.Reach 1000 160 taken_50
unfolding create request_output_quota ◌-ℤ◌
taken_50-Reach = Output.next Output.here (Output.takes 50 50 (omega arith) request_50)
  where
    request_50 :
        request_output_quota (pos 50) (create 160 (pos 160))
        ≡ Quota.gets (pos 50) (record window_160 { output_window_size = pos 110 })
    request_50 = ground arith

quota_lem_example : (pos 110 +ℤ pos 50 ≡ pos 160) × (50 ≤ 160) × (pos 110 ≤ℤ pos 1000)
quota_lem_example = quota_lem (omega arith) taken_50-Reach

request_output_quota-GivesQuota_example :
    GivesQuota 200 window_160 (request_output_quota (pos 200) window_160)
request_output_quota-GivesQuota_example =
    request_output_quota-GivesQuota 200 window_160 (omega arith)

-- Two values of a header are joined by a NUL byte.
merge_outcome :
    merge_in_header (codes "A") (codes "2") ((codes "a", codes "1") ∷ [])
    ≡ (codes "a", b'1' ∷ 0 ∷ b'2' ∷ []) ∷ []
unfolding merge_in_header lower assign find bytes_eq
merge_outcome = refl
