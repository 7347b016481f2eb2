-- ===== src/Lib.antt =====
-- dip is a command line tool for containerised development projects. Its long-running part is a TLS
-- proxy with a DNS server; its commands read env files and Compose files, and dump, import and
-- migrate databases.
--
-- Module Text has the operations of the standard library on strings that the code uses, on texts as
-- lists of code points, and bytes read as UTF-8.
--
-- Dns models src/dns/server.rs. Its module Server has one definition per function (`respond` is the
-- task that `run` spawns for a packet); a function that can fail, panic or not end has its result
-- in Dns.Exec. Loops over a packet run on fuel, one more than the packet is long, and the theorems
-- on panics show that it is never used up. Letter case and the datagrams of the upstream are
-- arguments.
--
-- Proxy.Config and Proxy.Router model src/proxy/config.rs and src/proxy/router.rs. The handler of a
-- request (Proxy.Handler, src/proxy/handler.rs) asks `match_route` for the upstream of a host, and
-- passes the request on with the headers of Proxy.Upstream (src/proxy/upstream.rs), over the
-- operations of a header map with their laws (Proxy.Headers).
--
-- Proxy.Watcher models src/proxy/watcher.rs, which keeps the routing table in step with the
-- containers. The table is a list; the events and the later runs of the start tasks are the steps
-- of a relation, in any order. Proxy.Routes models the edits of the same table by hand and by a
-- project's start and stop, src/commands/proxy/routes.rs.
--
-- Env models src/utils/env.rs, the parsing of environment files, hooks' output and container
-- environments; a map is a list of pairs with distinct keys.
--
-- Db models src/db. Db.Services has the credentials of src/db/mod.rs and the choice of the two
-- services in `run_migrate` of src/db/migrate.rs; Db.Schema, Db.Ddl and Db.Sql have the types,
-- statements and literals of the migration, Db.Cells its values, over the types and rows of the
-- drivers (`Drivers`), and Db.Transfer the loop that inserts a stream of rows in batches into a
-- destination, a state that statements change or fail on. Db.Migration puts these together: a
-- migration as the sequence of the statements that it executes.
--
-- Json has the values that YAML and Compose files are read into. Yaml models src/utils/yaml.rs:
-- Yaml.Scan and Yaml.Scalar the helpers on lines and scalars, Yaml.Flow the struct `FlowParser`,
-- Yaml.Lines, Yaml.Inline, Yaml.Literal and Yaml.Block the struct `Parser`, and Yaml.Parser
-- `from_str`. Where the source has a position, the model has the text or the lines that are left.
-- The recursive functions run on fuel, and the parts of each are definitions on what the next calls
-- do; two units for a character or a line's end are enough, as every round of a loop takes a
-- character or shortens a line. What the libraries decide (floats, the printing of values) is the
-- record `External`.
--
-- Compose models src/runtime/compose_file.rs: Compose.Variables the interpolation, Compose.Paths
-- the paths, Compose.Volumes and Compose.Services the parsers of a service's fields, Compose.Stages
-- the stages of a Dockerfile, and Compose.Loading the loading of a file, from Yaml's `from_str`
-- over the variables, a map as Env builds it, to the services.
--
-- Apple models the parts of src/runtime/apple.rs that do not run commands: Apple.Order the visit of
-- the services before they start, in which every call costs a unit of fuel, and a unit more than
-- there are services is enough, as each call sees a new one; Apple.Arguments the arguments of the
-- commands.
--
-- Not modelled: sockets, TLS, files and processes; what they deliver are arguments. The Docker
-- runtime and the commands are not modelled.
mod Base
pub mod Text
pub mod Proxy
pub mod Dns
pub mod Env
pub mod Db
pub mod Json
pub mod Yaml
pub mod Compose
pub mod Apple
