-- ===== src/Lib.antt =====
-- Verification of pytest-salt-factories, the pytest plugin that runs Salt daemons and CLIs in tests.
--
-- The parts of the program and the files that model them:
--
-- Cli.antt, Cli/*        the CLI factories: src/saltfactories/bases.py (SaltMixin, SaltCli) and
--                        src/saltfactories/cli/*.py. `Class` lists the classes. Cli/Flags, Cli/Timeout,
--                        Cli/Output and Cli/Cmdline are the blocks of `SaltCli.cmdline` in its order,
--                        and Cli/Process is `process_output`, with the overrides of every class.
--                        `terminal_timeout` is `impl._terminal_timeout`, `minion_tgt` is
--                        `_minion_tgt`, `use_merge` and `json_output` are `__merge_json_output__`
--                        and `__json_output__`. A call returns the factory that it leaves and a
--                        `Result`; its errors are the exceptions.
-- Daemon.antt, Daemon/*  `SaltDaemon` of src/saltfactories/bases.py: its command line and the check of
--                        its start events, which asks the event listener. Daemon/Systemd is
--                        `SystemdSaltDaemonImpl`, a daemon as a service, and the acts of its end.
-- Events.antt, Events/*  src/saltfactories/plugins/event_listener.py: the payload handler and the
--                        bounded store (Events.antt, Events/Store, Events/Retained), `get_events` (Events/Query) and
--                        `wait_for_events` (Events/Wait). Events/Fnmatch writes out `fnmatch` of
--                        Python's standard library for POSIX, where the case of letters counts.
-- Loader.antt, Loader/*  `LoaderModuleMock` of src/saltfactories/utils/loader.py.
-- Loaders.antt, Loaders/*  `Loaders` of the same functional.py that States.antt is about: what is loaded
--                        with which copy of the options (Loaders/Fresh and Loaders/Once),
--                        and the dicts that wrap the functions of salt (Loaders/Wrappers).
-- States.antt, States/*  `StateResult` and `MultiStateResult` of src/saltfactories/utils/functional.py.
-- TempFiles.antt, TempFiles/*  src/saltfactories/utils/tempfiles.py: directories and files that are
--                        removed when a test is done, and the salt environments.
-- Markers.antt, Markers/*  src/saltfactories/utils/markers.py: the markers that skip a test.
-- Client.antt, Client/*  `LocalClient` of src/saltfactories/client.py; Client/Running is its regular
--                        expression, written out for what it uses of Python's `re`.
-- Container.antt, Container/*  `Container` of src/saltfactories/daemons/container.py: `start` and
--                        `terminate` (Container.antt), its start checks (Container/Checks) and its
--                        ports (Container/Ports). Container/Salt is what `SaltDaemon` of the same file
--                        does to its container and its daemon.
-- LogHandler.antt, LogHandler/*  the ZMQ log handler of a daemon, pytest_log_handler.py below
--                        src/saltfactories/utils/saltext: its life in the processes that inherit it
--                        (LogHandler.antt), the abstract log that it is to be (LogHandler/Log), the reports
--                        of dropped messages that come back to it (LogHandler/Reports), and its setup
--                        (LogHandler/Setup).
-- LogServer.antt, LogServer/*  `process_logs` of src/saltfactories/plugins/log_server.py, which reads
--                        what the log handlers send.
-- Engine.antt, Engine/*  the engine that forwards the events of a daemon, pytest_engine.py below
--                        src/saltfactories/utils/saltext: its queue and its two threads, as steps.
-- DaemonConfig.antt, DaemonConfig/*  the configurations of the minion, the master and the
--                        syndic, src/saltfactories/daemons/minion.py, master.py and syndic.py, how the
--                        manager asks for that of a minion (DaemonConfig/Shared), that of the proxy,
--                        proxy.py (DaemonConfig/ProxyMinion), and what proxy.py and api.py add
--                        (DaemonConfig/Proxy).
-- Sshd.antt, Sshd/*      `Sshd` of src/saltfactories/daemons/sshd.py: its keys (Sshd/Keys) and its
--                        configuration file (Sshd/Config).
-- Scripts.antt, Scripts/*  src/saltfactories/utils/cli_scripts.py: the scripts that the manager has made.
-- Manager.antt, Manager/*  `FactoriesManager` of src/saltfactories/manager.py: its initialisation and
--                        script paths (Manager/Start), the root directories of its daemons
--                        (Manager/RootDir) and the final tweaks of a configuration (Manager.antt).
-- Base.antt, Base/*      what the parts share: lists, sets as lists, dictionaries as association lists,
--                        texts as lists of code points, integers and their decimal texts.
--
-- How they meet: a test asks a CLI factory for a command line, whose output comes back through
-- `process_output`. The daemons send their events through the engine to the listener, which the tests
-- query, and their log records through the log handler; both read what the manager's final tweaks put
-- into the configuration (Manager/Tweaks). The manager asks a daemon class for that configuration, and
-- the start of a daemon is confirmed by the events that the class names. The loader mocks, the state results, the temporary files and the markers serve unit tests of Salt modules.
--
-- A call of a salt function through the master's client goes through Client, and one in the process of the
-- test through Loaders, whose results are those of States.
--
-- Parameters: the client of salt (`reply`), what salt's functions return (`salt`), what systemd and psutil
-- answer (`System`) and `ssh-keygen` (`keygen`, with the laws of Sshd/Keys) are arguments,
-- and so is `dictupdate.update` of salt, with the laws of DaemonConfig.antt. What salt loads of a
-- configuration is an argument too, with `IsLoaded` of DaemonConfig/Precedence for what is relied on. `Host` is what the command line takes from pytest-shell-utilities and from `str()` and
-- `json.dumps()`; `json.loads` is the argument `loads` of Cli/Process, and `convert_stamp` reads a time
-- stamp. Times are natural numbers (microseconds). A call of `wait_for_events` takes the list of its
-- rounds, each with the clock and the store that it sees, and no fuel. `digits_of` runs on fuel n + 1,
-- enough for n since each step divides by ten.
-- The reports about dropped messages that come back to the log handler are a list of an emission, whose end is
-- where the next does not come back, so that no fuel is needed.
-- The attempts of a container are a list, each with the rounds of its inner loop; a loop that is still
-- running has an outcome of its own. The rounds of the log server are a list, too. A call of `LocalClient.run`
-- has a fuel for the depth of its calls, where Python raises a `RecursionError`: two levels are enough where the
-- replies to find_job and kill_job are no lists. The search for a new root directory runs on a fuel of one more than
-- the directories that there are, enough since its candidates are all different.
--
-- Not modelled: sockets, threads, processes and the file system beyond the tree of directories;
-- `int()` on digits outside ASCII and floating point timeouts; the clock is read once for a pass over
-- the store.
-- The start of Salt in a container, the calls of the manager that make daemons, the virtual environments and
-- the configuration files of Salt are not in yet. The directories that a default configuration makes
-- are not modelled either. Docker and ZMQ are what a call meets: whether they
-- succeed, and what they answer. That `default_config` changes the caller's dictionary is in the model of
-- the minion alone; the final tweaks stand on configurations of their own, in Manager.antt.
pub mod Base
pub mod Cli
pub mod Client
pub mod Container
pub mod Daemon
pub mod DaemonConfig
pub mod Engine
pub mod Events
pub mod Loader
pub mod Loaders
pub mod LogHandler
pub mod LogServer
pub mod Manager
pub mod Markers
pub mod Scripts
pub mod Sshd
pub mod States
pub mod TempFiles
