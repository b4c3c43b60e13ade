-- ===== src/Lib.antt =====
-- SwarmDeck: the decision-making parts of the fleet server, the robot adapters and the agent.
--
-- Operators and an agent drive a fleet of robots through one server. Each robot runs an adapter,
-- which keeps a websocket to the server, sends the robot's state and carries out commands. The
-- server keeps the fleet (Registry), commands robots over HTTP (Teleop), asks the operator about
-- detected objects (Review), plans paths on the map (Planner), makes grids of lidar scans
-- (ScanGrid), keeps the map's published snapshots (Snapshots) and the operator's settings
-- (Settings), hands keyframes to the SLAM service (GraphBridge) and point clouds to the dashboards
-- (CloudDelivery). An adapter sends what its lidar saw as keyframes (Keyframe), moves its robot
-- and stops it when the operator falls silent (Adapter), and explores on its own (Exploration),
-- which it stops before any other motion. The agent plans missions as graphs of tasks (Missions)
-- and keeps a durable record of its work (Cortex.Store), which its supervisor writes while it
-- passes a provider's stream on (Cortex.Supervisor); that stream is made of the output of a
-- process (Cortex.Runtime), which one of three providers reads (Cortex.OpenCode, Cortex.Agy,
-- Cortex.Ndjson).
--
-- Files and sources:
--   Missions        agent/agent_cortex/missions.py: MissionPlan.validate_graph, MissionExecutive
--   Exploration     adapters/exploration.py: MggExploration
--   Registry        server/swarmdeck_server/fleet/registry.py: Robot, Registry, parse_footprint
--   Teleop          server/swarmdeck_server/api/teleop_routes.py: post_robot_drive, _goal, _cancel,
--                   _stop, _body; api/app.py: goal_taken
--   Review          server/swarmdeck_server/detect/review.py: Accumulator (Review.Evidence), ReviewStore
--   Adapter         adapters/runtime.py: AdapterLinkMixin; adapters/session.py: dispatch_command,
--                   _stop_on_disconnect; adapters/adapter_ros2/adapter_ros2.py: drive, cancel_goal
--   GraphBridge     server/swarmdeck_server/mapsvc/graph_bridge.py
--   CloudDelivery   server/swarmdeck_server/mapsvc/cloud_delivery.py: CloudDelivery.prepare
--   Keyframe        adapters/protocol/swarmdeck_protocol/keyframe.py: encode_keyframe, decode_keyframe
--   Planner         server/swarmdeck_server/mapsvc/planner.py: plan_global_path
--   ScanGrid        server/swarmdeck_server/mapsvc/scan_grid.py: _bresenham, ScanGridAccumulator
--   Settings        server/swarmdeck_server/config/settings.py, config/detection.py
--   Snapshots       server/swarmdeck_server/mapsvc/snapshot.py, synchronization.py: SnapshotStore
--   Cortex.Store    agent/agent_cortex/store.py: CortexStore
--   Cortex.Supervisor  agent/agent_cortex/supervisor.py: CortexSupervisor.run, _safe_payload
--   Cortex.Runtime  agent/agent_cortex/runtime.py: ProviderRuntime.run
--   Cortex.OpenCode  agent/agent_cortex/providers.py: OpenCodeProvider (and its run under the
--                   supervisor, in Cortex.OpenCode.Recorded)
--   Cortex.Agy      agent/agent_cortex/providers.py: AgyProvider
--   Cortex.Ndjson   agent/agent_cortex/providers.py: NdjsonBridgeProvider
--   Prelude         names that all share: lists, dictionaries, integers, floats, JSON, texts
--
-- How a component is modelled: its state is a record with the fields of the class, a method or route
-- is a function to the new state and what it returns, an exception is a value, and a definition's
-- comment names the code that it stands for. A component that is longer than its file has its
-- properties in child modules named after what they show; `Samples` has concrete runs.
--
-- Concurrency: a Python coroutine runs alone between two awaits. In Registry and Teleop what the
-- other handlers do during an awaited send is a function, a parameter of the call; in Exploration,
-- Adapter, Cortex.Store and GraphBridge the interleavings are lists of steps, or a step relation.
--
-- Bounds and fuel: `visit` of Missions recurses on fuel, one more than the number of tasks, which is
-- enough since every call on the stack is of another task (see validate_graph_complete). The
-- planner's search has the 40,000 expansions that the code allows, and its walk back has one step
-- more than the score of the cell where it begins, which falls with each step (see
-- search_path-Searched). The loop of _bresenham has as much fuel as there are rows and columns
-- between the cells, one of which each turn takes away. All other recursion is structural. Numbers
-- are naturals without an upper bound, as in Python. A float of Prelude.Float is a count of
-- thousandths, or nan or an infinity, so that rounding is not modelled; the floats of Review are a
-- parameter with no law at all. Times are milliseconds.
--
-- Parameters: what `float` makes of a text, the socket's success, the map service (Teleop.Maps),
-- the regular expressions of the supervisor (Patterns), the ROS services of the exploration (Env),
-- the bridge's own handlers (Adapter.Callees), the answers of the SLAM service, json, zlib and
-- numpy of the keyframes (Keyframe.Codec), scipy's dilation and math.hypot (Planner.Library), the
-- json and processes of the providers (Cortex.OpenCode.Library, Cortex.Ndjson.BridgeLibrary), and
-- the detector's catalog and Unicode's tables of white characters and digits (Settings).
--
-- Not modelled: the numerical parts (map fusion, SLAM, perception), the ROS bridges but for the
-- motion above, the websocket and broadcast wiring of the server, files and processes, the
-- dashboard, the simulator and the vendored C++. The saved form of the review, the shadow
-- planner and the classification of jobs are left out of the components that are modelled. So are
-- whole numbers of a JSON document that float() refuses as too large, and the RecursionError of
-- json.loads on a document that is nested too deeply.
mod Prelude
pub mod Missions
pub mod Exploration
pub mod Registry
pub mod Review
pub mod Teleop
pub mod Cortex
pub mod Adapter
pub mod GraphBridge
pub mod CloudDelivery
pub mod Keyframe
pub mod Planner
pub mod Settings
pub mod ScanGrid
pub mod Snapshots
