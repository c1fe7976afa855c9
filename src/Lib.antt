-- ===== src/Lib.antt =====
-- Models and proofs for the firmware of the AirU air quality sensor, an ESP32 program in C.
--
-- The program is a set of FreeRTOS tasks. The WiFi manager (main/wifi_manager.c) keeps the station
-- connected, offers an access point with a web page, and keeps the configuration in flash; the web
-- server (main/http_server_if.c) and the driver's events set bits of an event group that it waits
-- on. A task per sensor collects measurements, which the data task polls and publishes.
--
-- + Base: native numbers, lists, Boolean tests, memory buffers (a write behind the end is `none`),
--   integers, and C's `float` as a parameter with the law that small whole numbers add exactly.
-- + Json: `json_print_string` of main/json.c. Json/Escape has the literal it should print,
--   Json/Writes and Json/Overflows compare the two, Json/Decode reads the literal back.
-- + ApList: `wifi_manager_filter_unique`, its two loops. ApList/Merge and ApList/Compact are about
--   one loop each, ApList/Networks about both.
-- + Pm: main/pm_if.c, from UART events to `PMS_Poll`; Pm/Checksum, Pm/Corruption,
--   Pm/Frames and Pm/Average hold the proofs.
-- + Nvs: the flash library of ESP-IDF as a parameter: its functions, and what its documentation
--   says of reading a key that was set.
-- + Wifi: the WiFi manager. Its state is the event group, the place where its task waits, the
--   configuration, the settings, flash, the documents for the web page, the reconnect timer, and a
--   log of driver calls. Wifi/Config saves and fetches the configuration, Wifi/Registration the
--   user's name and address, Wifi/Handlers has the functions that other tasks call, Wifi/Manager
--   the loop of `wifi_manager` cut at its five waits (`main_step` runs the task from one wait to
--   the next, with what the driver does as an argument), Wifi/Steps the interleaving of all of
--   them as a relation. Wifi/Safety, Wifi/Scans, Wifi/Flash, Wifi/Rounds and Wifi/Outcomes hold
--   the proofs. Wifi/Start is the task before its loop, with the compiler's layout of
--   `struct wifi_settings_t` and the driver's answers as arguments.
-- + Upload: main/http_file_upload.c, the chunked body of an upload over its two buffers.
--   Upload/Hex and Upload/Chunk are about one chunk, Upload/Body about the file, Upload/Request
--   about the whole body, Upload/Bounds about the chunk sizes, Upload/Session about
--   `http_upload_file_from_sd`, Upload/Resources and Upload/Releases about its buffers, its socket
--   and its file on each path. The loop over the file recurses on fuel; the length of the file is
--   enough. `fread` returns what it is asked for up to the end of the file.
-- + Server: one request of the web server, main/http_server_if.c, as the list of what it does;
--   Server/Answers counts its answers. Server/Requests, Server/Connects and Server/Locking join it
--   to the WiFi manager, its flash and its mutex. Server/Isp is `http_get_isp_info`, with the reads
--   of its socket as an argument, Server/Reads, Server/Copies, Server/Stamps and Server/Provider
--   its proofs; Mqtt/Provider joins it to the handler of main/mqtt_if.c.
-- + Led: main/led_if.c, the event bits and the duties; Clock: the wait for SNTP of main/time_if.c,
--   its loop on fuel, of which 25 is enough, and the clock
--   that is read between two waits (Clock/Readings).
-- + Wifi/Documents: the JSON documents of the web page as text in their buffers, on Json/Buffer
--   and Json/Building, C strings in a buffer; Wifi/Documents/Contents has a reference for the
--   access point list, Wifi/Documents/Bounds, Wifi/Documents/Connection and
--   Wifi/Documents/Registered the sizes.
-- + Ota: main/ota_if.c. The partition operations of ESP-IDF are a parameter with laws, and so is
--   what the HTTP client reads, a list of parts with an end; Ota/Writing is about the loop that
--   writes, Ota/Install about the whole.
-- + Mqtt: main/mqtt_if.c, on the WiFi manager's and the update task's states; Mqtt/Tokens and
--   Mqtt/Commands are about payloads, Mqtt/Clients about runs as a relation, Mqtt/Updates about a
--   message and its update.
-- + Sd: main/sd_if.c, on a file system as a parameter with laws. Sd/Dates is about paths,
--   Sd/Packets about the files of the days, Sd/Logging has the log file with its mutex and
--   rotation.
-- + Nmea, Gps: main/gps_if.c, its texts and the parser; floats and `atof` are a parameter with
--   laws on whole numbers. Gps/Dates, Gps/Days and Gps/Sentences are about the fields,
--   Gps/Checksums about whole sentences.
-- + Gas: main/mics4514_if.c, the averages and the pins of the gas sensor; Gas/Samples bounds them.
-- + App: a round of the data task of main/main.c over the states of the modules that it calls;
--   what `sprintf` makes of the readings is a parameter. App/Reports holds the proof.
-- + AppUtils: main/app_utils.c, the device's name, the text of a digest and the start of flash.
-- + Hdc: main/hdc1080_if.c on the I2C bus as a parameter; the values of a measurement are whole
--   numbers of 1 / 65536, which doubles hold exactly.
-- + HttpClient: main/http_client_if.c, and the POST request of main/http_server_if.c, as the calls
--   that they make. Startup: PMS_Initialize, GPS_Initialize, SD_Initialize and SNTP_Initialize.
-- + Tests: runs on concrete inputs, with flash as a function from keys to blobs.
--
-- Between two waits the task is taken to run without another task in between; on the device a
-- handler may preempt it there. In the WiFi manager's state the JSON documents are data; their
-- text is in Wifi/Documents. An abort (`ESP_ERROR_CHECK`, a missing configuration) is the outcome
-- `stopped`. Loops over lists recurse on the list; the fuel of the JSON reader counts characters,
-- and the length of the string and one more is enough. Byte strings of C end before their NUL.
-- `size_t` sums are unbounded; `uint16_t` and `uint32_t` counters wrap.
--
-- The save of a registration by the web server, which has keys of its own in flash, is one of the
-- steps of Wifi/Steps. `strtok_r` leaves NULL behind a line that has no end, as newlib does.
--
-- Not modelled: drivers, sockets, the HTTP and MQTT libraries, pure logging, the browser's side;
-- `wifi_manager_destroy`, which nothing calls; `app_main` of main/main.c, which calls the starts of
-- the modules without a look at their results and makes the tasks.
pub mod Base
pub mod Json
pub mod ApList
pub mod Pm
pub mod Nvs
pub mod Wifi
pub mod Tests
pub mod Upload
pub mod Led
pub mod Clock
pub mod Server
pub mod Ota
pub mod Mqtt
pub mod Sd
pub mod Startup
pub mod Nmea
pub mod Gps
pub mod Hdc
pub mod HttpClient
pub mod App
pub mod AppUtils
pub mod Gas
