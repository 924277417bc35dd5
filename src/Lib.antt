-- ===== src/Lib.antt =====
-- A verification library for the Pandora FMS agent for Windows.
--
-- The agent reads a configuration file, builds modules from the definitions in it, runs them in
-- rounds, and reports the values that they collect as XML. The files here model the parts that carry
-- this logic, function by function, and prove what makes them correct:
--
-- - Base, Text: numbers, lists, results and byte strings (`std::string`) that the other files share.
-- - Strutils: pandora_strutils.cc (`trim`, `strreplace`, `stringtok`, `inttostr`, `strtoint`,
--   `strtodouble`).
-- - KeyValue: `Key_Value::parseLine` and `is_enabled` of pandora.cc.
-- - Conf: `Pandora_Agent_Conf` of pandora_agent_conf.cc. The files at their paths are a function; the
--   two lists are the fields `key_values` and `collection_list`, and `collection_it` is an index.
-- - Cron: `checkCron`, `setCron` and `setCronInterval` of modules/pandora_module.cc. `localtime` is a
--   parameter.
-- - Data: `Pandora_Data` of modules/pandora_data.cc.
-- - Module: `Pandora_Module` of modules/pandora_module.cc. Module.Defs has the members, Module.Setters
--   the setters, Module.Output the output and `run`, Module.Conditions the conditions, Module.Xml
--   `getXml`, Module.Preconditions `evaluatePreconditions`. The classes of modules: Module.Regexp the
--   one with a regular expression (modules/pandora_module_regexp.cc), whose file grows or is replaced
--   between rounds; Module.Exec those that run a command (pandora_module_exec.cc, _plugin.cc,
--   _ping.cc); Module.Inventory (pandora_module_inventory.cc); Module.Watch.Proc and
--   Module.Watch.Service (pandora_module_proc.cc, pandora_module_service.cc), with their threads as
--   functions of the rounds that Windows has answered; Module.Logevent (pandora_module_logevent.cc);
--   Module.Values those that store one value.
-- - Child: the loop over the pipe of a child process, which Module.Exec, Module.Preconditions and
--   Service.Gis use; what the process writes is given round by round.
-- - Wmi: `Pandora_Wmi` of windows/pandora_wmi.cc, with an answer as a list of objects; Wmi.Info the
--   rows for the inventory. Registry: `Pandora_Windows_Info` of windows/pandora_windows_info.cc.
-- - Start: the parameters of `main` in main.cc.
-- - Factory: `parseLine` and `getModuleFromDefinition` of modules/pandora_module_factory.cc.
--   Factory.Tokens has the tokens, whose variables are a function from the token to its text, and the
--   four queues; Factory.Macros the macros; Factory.Work the class of the module that is created, with
--   what its constructor is given; Factory.Build the module itself.
-- - ModuleList: the constructor and `parseModuleConf` of modules/pandora_module_list.cc, as the list of
--   the definitions that they hand to the factory. ModuleList.Iterator has the list of the modules
--   that the factory builds from them, and its iterator.
-- - File: `Pandora_File` of misc/pandora_file.cc over a disk, which may store less of a text than was
--   written, and may keep a file that is removed; File.Hex the text of a digest;
--   File.RemoveDir `removeDir` on a tree of files and folders.
-- - Conf.Broker: the drone agents, from pandora_agent_conf.cc and pandora_windows_service.cc.
-- - Ssh and Ftp: what ssh/pandora_ssh_client.cc and ftp/pandora_ftp_client.cc ask of libssh2 and curl,
--   and what they make of the answers.
-- - Service: `Pandora_Windows_Service` of pandora_windows_service.cc. Service.World has what its
--   functions read and change, and how they can end; Service.Outside what they rely on outside the
--   repository. Service.Transfer is `copyDataFile` and its four ways, Service.Receive `recvDataFile`,
--   Service.Config `checkConfig`, Service.Collections `checkCollections`, Service.Header
--   `getXmlHeader`, Service.Fields the custom fields, Service.SendXml `sendXml`, Service.Buffer
--   `sendBufferedXml`, and Service.Rounds the loop of `pandora_run` and `pandora_run_broker` over the
--   modules. `sendXml` uses Header, Fields, the texts of Module.Xml, Transfer and Buffer; a round uses
--   the modules' cron, conditions and output. Service.Kept and Service.Post have the rules for runs
--   that keep something, and for what holds at their ends. Service.State has the members,
--   `pandora_init` and `pandora_init_broker`; Service.Run `pandora_run` and `pandora_run_broker`,
--   which call all of these. Service.Returns has the rules for what a run returns. Service.Gis is
--   `getCoordinatesFromGisExec`, Service.Proxy the Tentacle proxy, Service.Startup the delay of the
--   first round. In Service.SendXml the virtual `getXml` of a module is chosen by its kind.
-- - Udp: `UDP_Server` of udp_server/udp_server.cc and the commands that it takes; `inet_addr` and the
--   packets are parameters, and a packet that is too large is an error of the socket.
-- - WindowsService: the loop of `Windows_Service` in windows_service.cc, which runs the agent in equal
--   intervals; the clock and what a round does are parameters.
-- - Platform: floating-point numbers and regular expressions, which the C library implements. They
--   are a parameter, and a theorem names what it needs of them.
-- - Tests: the definitions at concrete inputs.
--
-- Code that changes an object is a function from the object to the object; an exception, and a read
-- that C++ leaves undefined, is a value of the result. A null list is `none`. A variable that is read
-- before it is set is a parameter named `unset`.
--
-- A run of the service is a function from a world to an outcome: undefined behaviour, a wait for another
-- program that never ends, no end, an exception, or a value, the last two with the world that they leave. The answers of other programs and
-- machines are functions of the requests that were made before.
--
-- Fuel and bounds: `strreplace` takes fuel, and more fuel than the text has bytes is enough for a
-- pattern that is not empty; `getXml` gives that much. Numbers are printed with one round for each
-- digit, and a number has no more digits than its value, or one. `int` has no bound but in
-- WindowsService: an overflow is undefined in C++, and the numbers of a configuration file are taken
-- as they are written; the count of the executions of a module starts at zero, and its overflow is not
-- modelled. The loop over the custom fields is given a hundred rounds and that over the collections
-- one more than there are collections, which are enough; the loop over the modules takes fuel, and one
-- more than there are modules is enough. A `size_t` has 32 bits.
--
-- Not modelled: in `pandora_init` and `pandora_run` the environment, the log and
-- the start of the UDP server; the destructors, which free memory; the service control
-- manager, the log file and the search for the description of an event, which are input and output.
-- A round of the service takes the preconditions, the value of `gis_exec` and `removeDir` as
-- parameters or requests, and what a class of modules does in `run` as a parameter: their own
-- functions are modelled, and are not put into the rounds. The copies of other projects' code
-- (libssh2, disphelper, md5, debug_new).
pub mod Base
pub mod Text
pub mod Strutils
pub mod KeyValue
pub mod Conf
pub mod Cron
pub mod Platform
pub mod Data
pub mod Module
pub mod File
pub mod Factory
pub mod ModuleList
pub mod Tests
pub mod Ssh
pub mod Ftp
pub mod Udp
pub mod WindowsService
pub mod Child
pub mod Wmi
pub mod Registry
pub mod Start
pub mod Service
