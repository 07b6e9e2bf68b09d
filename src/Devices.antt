-- ===== src/Devices.antt =====
-- `register_device` and `list_registered_devices` of src/host_resolution.rs.
use rust_messagebox_client.Prelude.{String, ◌<>◌, Option, List, unwrap_or}
use rust_messagebox_client.Error.{overlay}
use rust_messagebox_client.Types.Devices.{RegisteredDevice, RegisterDeviceResponse}
use rust_messagebox_client.Deps.{Deps}
use rust_messagebox_client.Io.{Io, of_result, ◌>>=◌, ◌>>◌}
use rust_messagebox_client.Client.Http.{post_json, get_json}
use rust_messagebox_client.Session.{Client}
use rust_messagebox_client.Session.Init.{assert_initialized}

module _ (D : Deps) (client : Client) where
  open D use {register_device_request, register_device_response, list_devices_response}

  unfoldable pub register_device :
      String → Option String → Option String → Option String → Io D RegisterDeviceResponse
  register_device fcm_token device_id platform override_host = do
    assert_initialized D client
    body_bytes ←
        of_result (λ e. overlay ("serialize RegisterDeviceRequest: " <> e))
          (register_device_request
            (record { fcm_token = fcm_token; device_id = device_id; platform = platform }))
    response ← post_json D (unwrap_or override_host client.host <> "/registerDevice") body_bytes
    of_result (λ e. overlay ("deserialize RegisterDeviceResponse: " <> e))
        (register_device_response response.body)

  unfoldable pub list_registered_devices : Option String → Io D (List RegisteredDevice)
  list_registered_devices override_host = do
    assert_initialized D client
    response ← get_json D (unwrap_or override_host client.host <> "/devices")
    of_result (λ e. overlay ("deserialize ListDevicesResponse: " <> e))
        (list_devices_response response.body)
