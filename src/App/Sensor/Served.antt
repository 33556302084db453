-- ===== src/App/Sensor/Served.antt =====
-- The data of the sensor task of src/app/sensor_task.c, as src/app/comm_task.c sends them.
use embed_rtos.Base.{ℕ, some, List}
use embed_rtos.Base.Float.{Float}
use embed_rtos.Protocols.Packet.{Packet}
use embed_rtos.Protocols.Packet.Messages.{sensor_bytes}
use embed_rtos.App.Comm.{Outside, SensorData}
use embed_rtos.App.Sensor.{Sensor}

module _ {F : Type 0} ⦃f : Float F⦄ where
  -- `get_sensor_data`, with each float as its bytes.
  pub get_sensor_data : Sensor F → SensorData
  get_sensor_data t = record {
    temperature = f.bytes t.sensor_data.temperature;
    humidity = f.bytes t.sensor_data.humidity;
    pressure = f.bytes t.sensor_data.pressure;
    data_ready = t.sensor_data.data_ready;
  }

  -- What the communication task sees beside the sensor task.
  abbrev pub beside : Sensor F → Outside → Outside
  beside t o = record o { sensor_data = some (get_sensor_data t) }

  -- The bytes of the three estimates.
  abbrev pub estimates : Sensor F → List ℕ
  estimates t = sensor_bytes (f.bytes t.temp_kf.x) (f.bytes t.hum_kf.x) (f.bytes t.press_kf.x)
