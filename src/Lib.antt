-- ===== src/Lib.antt =====
-- A verification library for the AWS Advanced Python Wrapper: the driver wrapper in
-- aws_advanced_python_wrapper/, which puts a chain of plugins (failover, read/write splitting, host
-- monitoring and others) between an application and its database driver.
--
-- The program. A call of the application reaches `PluginManager`, which runs the plugins that
-- subscribe to the method, one around the next, down to the driver. The plugins share one
-- `PluginService`: it holds the current connection and its host, the topology of the cluster, and
-- the session state that a new connection must take over. The topology comes from a host list
-- provider and changes by queries. When a call fails with a network error, `FailoverPlugin` asks a
-- failover handler for a connection to another host and makes it the current one, which notifies the
-- other plugins. `ReadWriteSplittingPlugin` switches between a writer and a reader connection when
-- the application calls set_read_only. Which of several hosts serves is decided by a host selector.
--
-- The files. A method is translated into a function by the same name, a private one without its
-- underscore; the parts of a long method are functions of their own beside it.
--   Cache/Map            aws_advanced_python_wrapper/utils/cache_map.py
--   Cache/Sliding        aws_advanced_python_wrapper/utils/sliding_expiration_cache.py
--   Concurrent           utils/concurrent.py and utils/atomic.py of aws_advanced_python_wrapper/
--   Host                 aws_advanced_python_wrapper/hostinfo.py and host_availability.py
--   HostListProvider     aws_advanced_python_wrapper/host_list_provider.py: from query rows to a
--                        topology, and the caches of topologies
--   HostSelector         aws_advanced_python_wrapper/host_selector.py: the round robin
--   PluginService        aws_advanced_python_wrapper/plugin_service.py: the allowed hosts, and what a
--                        new topology changes
--   Session              aws_advanced_python_wrapper/states/, and the switch of the current
--                        connection in plugin_service.py
--   PluginManager        aws_advanced_python_wrapper/plugin_service.py: the pipeline, and the order
--                        of the plugins
--   ReadWriteSplitting   aws_advanced_python_wrapper/read_write_splitting_plugin.py
--   Failover             aws_advanced_python_wrapper/failover_plugin.py and failover_result.py
--   HostMonitoring       aws_advanced_python_wrapper/host_monitoring_plugin.py
--   WriterFailover       aws_advanced_python_wrapper/writer_failover_handler.py
--   StaleDns             aws_advanced_python_wrapper/stale_dns_plugin.py
--   ConnectionTracker    aws_advanced_python_wrapper/aurora_connection_tracker_plugin.py
--   RdsUtils             rdsutils.py and rds_url_type.py of aws_advanced_python_wrapper/utils/
--   InitialConnection    aws_advanced_python_wrapper/aurora_initial_connection_strategy_plugin.py
--   ReaderFailover       aws_advanced_python_wrapper/reader_failover_handler.py
-- Prelude, Dict and Exec hold what these share: tests, lists, Python's dict as an association list,
-- and methods that change an object and may raise, with rules for what they keep (`Keeps`) and for
-- how they end (`Ends`).
--
-- The state. An object is a record, and a method gives the new record beside its result; a method
-- that raises gives the state that it leaves too. A component that calls others takes their
-- operations as a record of parameters (`Outside` of Session/Service, `Service` of the plugins and
-- of the reader failover handler) over an abstract world, and what a theorem relies on about them is
-- a record of laws (`KeepsFlags`, `Lawful`), which the tests fill by concrete functions. A
-- connection and an exception object are numbers. Each reading of the clock is an argument, in
-- nanoseconds or seconds as in the source. A lock makes the calls that hold it single steps; the
-- threads of a batch of connection attempts are a parameter that orders the outcomes.
--
-- Bounds and fuel. Python's integers have no bound, and times are natural numbers. The decimal text
-- of a port runs on fuel of one more than the number, which is above the count of its digits. The
-- retry loop of the reader failover handler runs on fuel of passes: one is enough, when the topology
-- gives a host to try. The loops of the writer failover handler and of the initial connection plugin
-- run on fuel too; an answer `none` says that it did not suffice. The loop of attempts of the
-- read/write splitting plugin has the bound that the source gives it, twice the number of hosts. The
-- loops of a host monitor run on fuel of one more than their queue, which the theorems on them show
-- to be enough. All other loops go over lists.
--
-- Not modelled: telemetry and logging, which leave no trace; the drivers, their dialects and the
-- queries of the database dialects, which run outside; the authentication plugins, which mostly talk
-- to AWS and to identity providers; the threads that clean a cache up. Left for later extensions: the
-- check that a host monitor makes, the settings of a host list provider, the reader loop of the initial
-- connection plugin, the fastest response and custom endpoint plugins, the texts that
-- utils/rdsutils.py takes out of host names, and the classes of wrapper.py.
pub mod Prelude
pub mod Exec
pub mod Dict
pub mod Concurrent
pub mod Cache
pub mod Host
pub mod PluginService
pub mod HostListProvider
pub mod Errors
pub mod Session
pub mod ReadWriteSplitting
pub mod Failover
pub mod PluginManager
pub mod HostSelector
pub mod ReaderFailover
pub mod HostMonitoring
pub mod WriterFailover
pub mod StaleDns
pub mod ConnectionTracker
pub mod RdsUtils
pub mod InitialConnection
