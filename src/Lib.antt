-- ===== src/Lib.antt =====
-- A model of the TypeScript server software/rpi/nibe1155/server, which reads and steers a heat pump over a
-- serial Modbus ASCII line, and of the Modbus part of software/rpi/egoHeater/server, an earlier server for a
-- heater, and theorems on both.
--
-- How the program works: ModbusSerial (modbus/modbus-serial.ts) sends the frames of the requests in its
-- queue one by one and assembles the bytes that come back to frames (modbus-ascii-frame.ts); a request
-- (modbus-request.ts) is settled by its echo and its response, or by a timeout. Nibe1155 (devices/nibe1155.ts) polls
-- the registers once a second, decodes the responses into values, and works off a queue of reads and writes.
-- Statistics (statistics.ts) collects the polled values in time slots.
-- HeatPump (devices/heat-pump.ts) calls its write methods every two seconds from a state machine. The actions
-- (devices/actions) write a value and read it back, up to three times. A Nibe1155MonitorRecord
-- (client/nibe1155-monitor-record.ts) is what a poll hands to Statistics. Auth (auth.ts) answers the logins of
-- users, whom it takes from Database (db/database.ts), and checks the tokens of the other requests; RouterNibe
-- (routers/router-nibe.ts) sets the mode of HeatPump for who knows the PIN of the server.
--
-- Which file models which part (the paths are below software/rpi/nibe1155/server/src):
--   Modbus/Hex, Modbus/Frame   modbus/modbus-ascii-frame.ts: the constructor; the printing of a byte by
--                              sprintf is the parameter `fmt`, of which PrintsBytes says what is documented
--   Modbus/Access              modbus/modbus-ascii-frame.ts: byteAt to s32At
--   Modbus/Request             modbus/modbus-request.ts: the setters and the factories
--   Modbus/Serial              modbus/modbus-serial.ts: handleError, handleTimeout, write, send and open, over
--                              a memory of pending requests; handleOnSerialData (Bytes)
--   Devices/Registers          devices/nibe1155-modbus.ts: regDefById and regDefByLable
--   Devices/Value              devices/nibe1155-value.ts: setRawValue, isValueChanged, clearValueChanged and
--                              the texts of the five subclasses
--   Devices/Nibe1155           devices/nibe1155.ts: the constructor, the write methods (Writes), and the
--                              polling (Polling), getRegisterValue and the read methods (Reads)
--   Devices/Actions            devices/actions: Action, its six actions, and the constructor of a curve
--   Devices/HeatPump           devices/heat-pump.ts: start, stop, setDesiredMode, and the handlers (Machine)
--   Statistics                 statistics.ts: the records of the time slots and their columns; handleTimer and
--                              the other handlers (Slots)
--   Statistics/Columns         what a statistics record is a summary of
--   Monitor                    client/nibe1155-monitor-record.ts: createInstance, the getters, normaliseUnit
--   Users/Attribute            objects with attributes of unknown type, as JSON gives them
--   Users/User                 db/user.ts, client/user-login.ts, db/database.ts (getUser), and
--                              client/auth-user.ts (AuthUser)
--   Users/Password             utils/password.ts and utils/ldap-password.ts
--   Users/Auth                 auth.ts: the tokens, handleGetAuth, handlePostAuth, authorizeRequest
--   Routers                    routers/router-error.ts (Errors), and postMode of routers/router-nibe.ts with
--                              isPinOK of server.ts (Mode)
--   EgoHeater                  software/rpi/egoHeater/server/src/modbus: the frame (Frame), the factories
--                              (Request) and the serial driver (Serial)
--   Prelude                    names and lemmas that the others share
--
-- How the code is modelled: a handler is a function from a state to a result, or what it throws, and a
-- state; a Date or a clock reading is an argument or comes from a world that changes at each await. What the
-- serial port answers is a parameter, of which nothing is assumed. A double is an exact number in a named
-- unit, hundredths for values with a unit, beside NaN and undefined. A JavaScript object that is shared
-- stands in a memory under a place (Modbus/Serial). Recursion is on lists; the loop that waits for the
-- compressor runs on fuel, 181 and 121 turns for 90 and 60 seconds, which lasts since each turn delays for half a
-- second; without fuel it throws a fault of its own. One poll is one step: jobs and set points that are pushed during its awaits count as pushed before or after it. The counts of
-- registers are whole numbers from 0 up, the raw heat curve and heat offset (which are not rounded) whole
-- numbers, and the frequency of a posted mode is a number.
--
-- The packages jsonwebtoken, password-hash, jssha, atob and btoa are the fields of Users.Password.Library and of
-- TokenLibrary in Users/Auth; what happens between a call of a read or write method and the answer of the poll is
-- a parameter `wait`. An action makes at most three attempts, so its loops run over a list or a count.
--
-- Not modelled: the texts for people, CSV and log output (writeLog, toNibe1155ValuesObject), the samba hash, which
-- nothing reads, the startup of both servers with their configuration, the routes of the web server that send
-- values or read and write a single register, and the firmware of the microcontroller in C.
pub mod Prelude
pub mod Modbus
pub mod Devices
pub mod Statistics
pub mod EgoHeater
pub mod Monitor
pub mod Routers
pub mod Users
